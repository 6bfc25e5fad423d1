-- ===== src/Server/Notifications.antt =====
-- src/server/notification_manager.cpp and .hpp, but for `on_listen` and `add_listener`, which query
-- the subscriptions: those are in the module Listening.
pub mod Listeners
pub mod Closing
use cpp_prototype.Common.{
  ℕ, ◌-◌, ltb, Bool, List, [], ◌∷◌, map, Bytes, Option, none, some, if◌then◌else◌,
}
use cpp_prototype.Common.Key.{bytes_key, ℕ_key}
use cpp_prototype.Common.Map.{Map, find, put, erase, keys, is_empty}
use cpp_prototype.Common.Set
use cpp_prototype.Common.Set.{Set}
use cpp_prototype.Messages.Message.{forwarded_subscription}
use cpp_prototype.Server.Effects.{Address, Peer, Sent, Regex}

pub record NotificationManager : Type 0 where
  pub notifications : Map Bytes (Map Address ℕ)
  pub regex_cache : Map Bytes Bytes
  pub listener_topic_patterns : Map Address (Set Bytes)

abbrev pub empty : NotificationManager
empty = record { notifications = []; regex_cache = []; listener_topic_patterns = [] }

-- `for (auto& [subscriber, count] : ...) listeners.insert (subscriber)`
unfoldable pub insert_all : List Address → Set Address → Set Address
insert_all [] s = s
insert_all (a ∷ as') s = insert_all as' (Set.insert a s)

unfoldable pub listeners_of : Option (Map Address ℕ) → Set Address → Set Address
listeners_of none s = s
listeners_of (some m) s = insert_all (keys m) s

-- The loop of `find_listeners` over the regex cache.
unfoldable pub find_listeners_loop :
    Regex → Map Bytes (Map Address ℕ) → Bytes → Map Bytes Bytes → Set Address → Set Address
unfolding listeners_of
find_listeners_loop rx notifications topic [] s = s
find_listeners_loop rx notifications topic ((topic_pattern, regex) ∷ cache) s =
    find_listeners_loop rx notifications topic cache
      (if rx.matches regex topic then listeners_of (find topic_pattern notifications) s else s)

unfoldable pub find_listeners : Regex → NotificationManager → Bytes → Set Address
unfolding find_listeners_loop
find_listeners rx m topic = find_listeners_loop rx m.notifications topic m.regex_cache []

-- The ForwardedSubscriptionRequest about a subscriber.
abbrev pub about : Peer → Bytes → Bool → Address → Sent
about p topic is_add receiver = record {
  receiver = receiver;
  message =
      forwarded_subscription
        (record { user = p.user; host = p.host; client_id = p.id; topic = topic; is_add = is_add });
}

unfoldable pub notify :
    Regex → (Address → Peer) → NotificationManager → Address → Bytes → Bool → List Sent
unfolding find_listeners
notify rx peers m subscriber topic is_add =
    map (about (peers subscriber) topic is_add) (find_listeners rx m topic)

-- The last part of `remove_listener`: the reverse lookup.
unfoldable pub forget_pattern : Address → Bytes → Map Address (Set Bytes) → Map Address (Set Bytes)
forget_pattern listener topic_pattern m = elim (find listener m) [
  | none ↦ m
  | some patterns ↦
      let rest = Set.erase topic_pattern patterns in
      if Set.is_empty rest then erase listener m else put listener rest m
]

-- `remove_listener` works on a copy of the topic_patterns listeners: of what it changes there, only that
-- the copy is empty has an effect.
unfoldable pub remove_counted :
    Address → Bytes → NotificationManager → Map Address ℕ → ℕ → NotificationManager
unfolding forget_pattern
remove_counted listener topic_pattern m listeners count =
    if ltb 0 (count - 1)
    then m
    else (let emptied = is_empty (erase listener listeners) in
        record {
          notifications = if emptied then erase topic_pattern m.notifications else m.notifications;
          regex_cache = if emptied then erase topic_pattern m.regex_cache else m.regex_cache;
          listener_topic_patterns = forget_pattern listener topic_pattern m.listener_topic_patterns;
        })

unfoldable pub remove_listener : Address → Bytes → NotificationManager → NotificationManager
unfolding remove_counted
remove_listener listener topic_pattern m = elim (find topic_pattern m.notifications) [
  | none ↦ m
  | some listeners ↦ elim (find listener listeners) [
    | none ↦ m
    | some count ↦ remove_counted listener topic_pattern m listeners count
  ]
]

-- One round of the loop in `on_interactor_closed`.
unfoldable pub leave_pattern : Address → Bytes → NotificationManager → NotificationManager
leave_pattern listener topic_pattern m = elim (find topic_pattern m.notifications) [
  | none ↦ m
  | some listeners ↦
      let rest = erase listener listeners in
      if is_empty rest
      then record m {
        notifications = erase topic_pattern m.notifications;
        regex_cache = erase topic_pattern m.regex_cache;
      }
      else record m { notifications = put topic_pattern rest m.notifications }
]

unfoldable pub leave_patterns : Address → List Bytes → NotificationManager → NotificationManager
unfolding leave_pattern
leave_patterns listener [] m = m
leave_patterns listener (p ∷ ps) m = leave_patterns listener ps (leave_pattern listener p m)

unfoldable pub on_interactor_closed : Address → NotificationManager → NotificationManager
unfolding leave_patterns
on_interactor_closed listener m = elim (find listener m.listener_topic_patterns) [
  | none ↦ m
  | some patterns ↦
      let m' = leave_patterns listener patterns m in
      record m' { listener_topic_patterns = erase listener m'.listener_topic_patterns }
]
