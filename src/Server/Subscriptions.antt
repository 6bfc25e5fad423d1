-- ===== src/Server/Subscriptions.antt =====
-- src/server/subscription_manager.cpp and .hpp.
pub mod Counts
pub mod Removal
pub mod Invariant
pub mod Lookup
use cpp_prototype.Common.{
  ℕ, ◌+◌, ◌-◌, Bool, true, false, List, [], ◌∷◌, ◌++◌, map, Bytes, Option, none, some, ltb,
  if◌then◌else◌,
}
use cpp_prototype.Common.Key.{bytes_key, ℕ_key}
use cpp_prototype.Common.Map.{Map, find, insert, put, erase, keys, is_empty}
use cpp_prototype.Common.Set
use cpp_prototype.Common.Set.{Set}
use cpp_prototype.Messages.Message.{SubscriptionRequest}
use cpp_prototype.Server.Effects.{Address, Peer, Sent, Regex}
use cpp_prototype.Server.Notifications.{NotificationManager, notify, insert_all}

pub record SubscriptionManager : Type 0 where
  pub subscriptions : Map Bytes (Map Address ℕ)
  pub subscriber_topics : Map Address (Set Bytes)

abbrev pub empty : SubscriptionManager
empty = record { subscriptions = []; subscriber_topics = [] }

-- The reverse lookup of `add_subscription`.
unfoldable pub list_topic : Address → Bytes → Map Address (Set Bytes) → Map Address (Set Bytes)
list_topic subscriber topic m = elim (find subscriber m) [
  | none ↦ insert subscriber (topic ∷ []) m
  | some topics ↦ put subscriber (Set.insert topic topics) m
]

-- The end of `remove_subscription`: the reverse lookup again.
unfoldable pub unlist_topic : Address → Bytes → Map Address (Set Bytes) → Map Address (Set Bytes)
unlist_topic subscriber topic m = elim (find subscriber m) [
  | none ↦ m
  | some topics ↦
      let rest = Set.erase topic topics in
      if Set.is_empty rest then erase subscriber m else put subscriber rest m
]

unfoldable pub find_subscribers : SubscriptionManager → Bytes → Set Address
find_subscribers s topic = elim (find topic s.subscriptions) [
  | none ↦ []
  | some subscribers ↦ insert_all (keys subscribers) []
]

-- The loop of `find_matching_subscriptions`: the topics that match, with their subscribers.
unfoldable pub matching : Regex → Bytes → Map Bytes (Map Address ℕ) → List (Bytes × List Address)
matching rx regex [] = []
matching rx regex ((topic, subscribers) ∷ m) =
    let rest = matching rx regex m in
    if rx.matches regex topic then (topic, keys subscribers) ∷ rest else rest

unfoldable pub find_matching_subscriptions :
    Regex → SubscriptionManager → Bytes → List (Bytes × List Address)
unfolding matching
find_matching_subscriptions rx s regex = matching rx regex s.subscriptions

-- The operations change the manager, and send through `notify`, which the notification manager does
-- not change.
module _ (rx : Regex) (peers : Address → Peer) (notifications : NotificationManager) where
  -- The forward part of `add_subscription`.
  unfoldable pub count_subscription :
      Address → Bytes → Map Bytes (Map Address ℕ) → Map Bytes (Map Address ℕ) × List Sent
  count_subscription subscriber topic m = elim (find topic m) [
    | none ↦
        (insert topic ((subscriber, 1) ∷ []) m, notify rx peers notifications subscriber topic true)
    | some subscribers ↦ elim (find subscriber subscribers) [
      | none ↦ (
        put topic (insert subscriber 1 subscribers) m,
        notify rx peers notifications subscriber topic true,
      )
      | some count ↦ (put topic (put subscriber (count + 1) subscribers) m, [])
    ]
  ]

  unfoldable pub add_subscription :
      Address → Bytes → SubscriptionManager → SubscriptionManager × List Sent
  unfolding count_subscription list_topic
  add_subscription subscriber topic s =
      let (subscriptions, sent) = count_subscription subscriber topic s.subscriptions in
      (
        record {
          subscriptions = subscriptions;
          subscriber_topics = list_topic subscriber topic s.subscriber_topics;
        },
        sent,
      )

  -- `remove_subscription` takes a copy of the topic's subscribers: the counts and the entries that it
  -- changes are the copy's, and only that the copy is empty has an effect.
  unfoldable pub remove_counted :
      Address → Bytes → SubscriptionManager → Map Address ℕ → ℕ → SubscriptionManager × List Sent
  unfolding unlist_topic
  remove_counted subscriber topic s subscribers count =
      if ltb 0 (count - 1)
      then (s, [])
      else (let emptied = is_empty (erase subscriber subscribers) in
          (
            record {
              subscriptions = if emptied then erase topic s.subscriptions else s.subscriptions;
              subscriber_topics = unlist_topic subscriber topic s.subscriber_topics;
            },
            if emptied then notify rx peers notifications subscriber topic false else [],
          ))

  unfoldable pub remove_subscription :
      Address → Bytes → SubscriptionManager → SubscriptionManager × List Sent
  unfolding remove_counted
  remove_subscription subscriber topic s = elim (find topic s.subscriptions) [
    | none ↦ (s, [])
    | some subscribers ↦ elim (find subscriber subscribers) [
      | none ↦ (s, [])
      | some count ↦ remove_counted subscriber topic s subscribers count
    ]
  ]

  unfoldable pub on_subscription :
      Address → SubscriptionRequest → SubscriptionManager → SubscriptionManager × List Sent
  unfolding add_subscription remove_subscription
  on_subscription subscriber request s =
      if request.is_add
      then add_subscription subscriber request.topic s
      else remove_subscription subscriber request.topic s

  -- One round of the loop in `remove_interactor`.
  unfoldable pub leave_topic :
      Address → Bytes → Map Bytes (Map Address ℕ) → Map Bytes (Map Address ℕ) × List Sent
  leave_topic subscriber topic m = elim (find topic m) [
    | none ↦ (m, [])
    | some subscribers ↦
        let rest = erase subscriber subscribers in
        if is_empty rest
        then (erase topic m, notify rx peers notifications subscriber topic false)
        else (put topic rest m, [])
  ]

  unfoldable pub leave_topics :
      Address → List Bytes → Map Bytes (Map Address ℕ) → Map Bytes (Map Address ℕ) × List Sent
  unfolding leave_topic
  leave_topics subscriber [] m = (m, [])
  leave_topics subscriber (topic ∷ topics) m =
      let (m', sent) = leave_topic subscriber topic m in
      let (m'', sent') = leave_topics subscriber topics m' in (m'', sent ++ sent')

  -- `on_interactor_closed`, which calls `remove_interactor`.
  unfoldable pub on_interactor_closed :
      Address → SubscriptionManager → SubscriptionManager × List Sent
  unfolding leave_topics
  on_interactor_closed subscriber s = elim (find subscriber s.subscriber_topics) [
    | none ↦ (s, [])
    | some topics ↦
        let (m, sent) = leave_topics subscriber topics s.subscriptions in
        (
          record { subscriptions = m; subscriber_topics = erase subscriber s.subscriber_topics },
          sent,
        )
  ]
