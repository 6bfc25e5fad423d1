-- ===== src/Server/Listening.antt =====
-- `on_listen` and `add_listener` of src/server/notification_manager.cpp, which tell a new listener of
-- the subscriptions that there are.
pub mod Adding
use cpp_prototype.Common.{
  ℕ, ◌+◌, Bool, true, false, List, [], ◌∷◌, ◌++◌, map, Bytes, Option, none, some, if◌then◌else◌,
  regex_error,
}
use cpp_prototype.Common.Key.{bytes_key, ℕ_key}
use cpp_prototype.Common.Map.{Map, find, insert, put}
use cpp_prototype.Common.Set
use cpp_prototype.Common.Set.{Set}
use cpp_prototype.Messages.Message.{NotificationRequest}
use cpp_prototype.Server.Effects.{Address, Peer, Sent, Regex, Done, done, reads_freed}
use cpp_prototype.Server.Notifications.{NotificationManager, about, remove_listener}
use cpp_prototype.Server.Subscriptions.{SubscriptionManager, find_matching_subscriptions}

-- The interactors of which the loops read the user, the host and the id.
unfoldable pub all_subscribers : List (Bytes × List Address) → List Address
all_subscribers [] = []
all_subscribers ((topic, subscribers) ∷ ms) = subscribers ++ all_subscribers ms

module _ (rx : Regex) (peers : Address → Peer) where
  -- One message to the listener for each subscriber of each matching topic.
  unfoldable pub tell_topic : Address → Bytes × List Address → List Sent
  tell_topic listener (topic, subscribers) =
      map (λ s. about (peers s) topic true listener) subscribers

  unfoldable pub tell_all : Address → List (Bytes × List Address) → List Sent
  unfolding tell_topic
  tell_all listener [] = []
  tell_all listener (m ∷ ms) = tell_topic listener m ++ tell_all listener ms

  -- The tables of `add_listener` for a pattern that is new. The pattern goes into `notifications_`
  -- before `std::regex` is asked to compile it; a failure leaves it there.
  -- For a pattern that exists, `listeners` is a copy: what is added to it is lost.
  unfoldable pub add_pattern : Address → Bytes → NotificationManager → NotificationManager × Bool
  add_pattern listener topic_pattern m = elim (find topic_pattern m.notifications) [
    | some listeners ↦ (m, true)
    | none ↦
        let m' = record m {
          notifications = insert topic_pattern ((listener, 1) ∷ []) m.notifications;
        } in
        if rx.is_valid topic_pattern
        then (record m' { regex_cache = insert topic_pattern topic_pattern m.regex_cache }, true)
        else (m', false)
  ]

  -- The reverse lookup.
  unfoldable pub list_pattern : Address → Bytes → Map Address (Set Bytes) → Map Address (Set Bytes)
  list_pattern listener topic_pattern m = elim (find listener m) [
    | none ↦ insert listener (topic_pattern ∷ []) m
    | some patterns ↦ put listener (Set.insert topic_pattern patterns) m
  ]

  unfoldable pub add_listener :
      Address → Bytes → SubscriptionManager → NotificationManager → Done NotificationManager
  unfolding add_pattern list_pattern tell_all
  add_listener listener topic_pattern subscriptions m =
      let (m', compiled) = add_pattern listener topic_pattern m in
      if compiled
      then (let m'' = record m' {
        listener_topic_patterns = list_pattern listener topic_pattern m'.listener_topic_patterns;
      } in
          elim (find topic_pattern m''.regex_cache) [
            | none ↦ done m'' []
            | some regex ↦
                let matches = find_matching_subscriptions rx subscriptions regex in
                record {
                  state = m'';
                  sent = tell_all listener matches;
                  thrown = reads_freed peers (all_subscribers matches);
                }
          ])
      else record { state = m'; sent = []; thrown = some regex_error }

  unfoldable pub on_listen :
      Address
      → NotificationRequest
      → SubscriptionManager
      → NotificationManager
      → Done NotificationManager
  unfolding add_listener
  on_listen listener request subscriptions m =
      if request.is_add
      then add_listener listener request.topic_pattern subscriptions m
      else done (remove_listener listener request.topic_pattern m) []
