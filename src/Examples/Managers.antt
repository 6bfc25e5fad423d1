-- ===== src/Examples/Managers.antt =====
-- The managers of the server at concrete inputs.
use cpp_prototype.Common.{◌≡◌, ◌≢◌, refl, true, false, [], ◌∷◌, Bytes, none, some, All, arith}
use cpp_prototype.Common.Int.{pos}
use cpp_prototype.Common.Key.{bytes_key, ℕ_key, ℤ_key, lexicographic, ℤ-compare}
use cpp_prototype.Common.Map.{find, keys, is_some}
use cpp_prototype.Common.Nested.{find2, contains2}
use cpp_prototype.Common.Set
use cpp_prototype.Common.Set.{Set}
use cpp_prototype.Server.Effects.{Address, Sent}
use cpp_prototype.Server.Authorization.{entitlements, publisher}
use cpp_prototype.Server.Authorization.Coherence.{granted, entitlements-granted}
use cpp_prototype.Server.Publishers
use cpp_prototype.Server.Publishers.{PublisherManager, select, add_publisher, on_send_multicast}
use cpp_prototype.Server.Publishers.Delivery.{CacheIsCoherent}
use cpp_prototype.Server.Publishers.Selection.{BothEntitled, select-All}
use cpp_prototype.Server.Publishers.Tables.{IsConsistent}
use cpp_prototype.Server.Publishers.Closing.{publisher_closed-contains2}
use cpp_prototype.Server.Publishers.Receivers.{on_send_multicast-IsTo}
use cpp_prototype.Server.Subscriptions
use cpp_prototype.Server.Subscriptions.{
  SubscriptionManager, find_subscribers, find_matching_subscriptions, unlist_topic,
  add_subscription, remove_subscription, on_subscription,
}
use cpp_prototype.Server.Subscriptions.Counts.{count}
use cpp_prototype.Server.Subscriptions.Removal.{requested, subscribed_twice-requested}
use cpp_prototype.Server.Subscriptions.Invariant.{
  IsTracked, subscriber_closed-forgets, remove_shared_outlasts,
}
use cpp_prototype.Server.Notifications
use cpp_prototype.Server.Notifications.{NotificationManager, notify, find_listeners}
use cpp_prototype.Server.Notifications.Listeners
use cpp_prototype.Server.Notifications.Closing.{listener_closed-forgets}
use cpp_prototype.Server.Notifications.Closing as Leaving
use cpp_prototype.Server.Listening.{on_listen}
use cpp_prototype.Server.Listening.Adding.{announcements, on_listen-fresh, on_listen-lost}
use cpp_prototype.Examples.World.{rx, peers, topic, packet, news, authorizations, publishers}

-- Interactors 1 and 2 have subscribed to the topic, once each.
abbrev shared : SubscriptionManager
shared = record {
  subscriptions = (topic, (1, 1) ∷ (2, 1) ∷ []) ∷ [];
  subscriber_topics = (1, topic ∷ []) ∷ (2, topic ∷ []) ∷ [];
}

-- Interactor 3 listens to the topic.
abbrev listening : NotificationManager
listening = record {
  notifications = (topic, (3, 1) ∷ []) ∷ [];
  regex_cache = (topic, topic) ∷ [];
  listener_topic_patterns = (3, topic ∷ []) ∷ [];
}

publishers-IsConsistent : IsConsistent publishers
unfolding contains2 find Set.contains
publishers-IsConsistent = record { agree = λ a t. ground arith; ordered = (tt, tt) }

publishers-CacheIsCoherent : CacheIsCoherent rx publishers
unfolding find
publishers-CacheIsCoherent = record { holds = λ u t role e h. cc }

one_is_not_two : ◌≢◌ {A = Address} 2 1
one_is_not_two h = absurd (omega arith)

entitlements-granted_example :
    (entitlements rx (1 ∷ []) topic publisher authorizations.repository).0
    ≡ granted rx authorizations.repository.specs (1 ∷ []) topic publisher
entitlements-granted_example =
    entitlements-granted rx (1 ∷ []) topic publisher authorizations.repository
      publishers-CacheIsCoherent

select-All_example : All (BothEntitled (pos 0 ∷ []) (pos 0 ∷ pos 2 ∷ [])) (packet (pos 0) ∷ [])
unfolding select Set.contains Set.intersection Set.is_empty Publishers.get_authorized_data
    Publishers.is_authorized ℤ-compare
select-All_example =
    select-All (pos 0 ∷ []) (pos 0 ∷ pos 2 ∷ []) (packet (pos 0) ∷ packet (pos 1) ∷ [])
      (packet (pos 0) ∷ []) refl

on_send_multicast-IsTo_example :
    All
      (λ (x : Sent). is_some (count shared x.receiver topic) ≡ true)
      (on_send_multicast rx peers shared 1 news publishers).sent
on_send_multicast-IsTo_example =
    on_send_multicast-IsTo rx peers 1 news shared publishers publishers-CacheIsCoherent

publisher_closed-contains2_example :
    contains2 topic 1
      (Publishers.on_interactor_closed rx peers shared 1 publishers).state.topic_publishers
    ≡ false
publisher_closed-contains2_example =
    publisher_closed-contains2 rx peers 1 shared publishers topic 1 publishers-IsConsistent

shared-IsTracked : IsTracked shared
unfolding find2 contains2 find Set.contains
shared-IsTracked = record { holds = λ j u h. ground arith }

listening-IsTracked : Leaving.IsTracked listening
unfolding find2 contains2 find Set.contains
listening-IsTracked = record { holds = λ j u h. ground arith }

subscriber_closed-forgets_example :
    (count (Subscriptions.on_interactor_closed rx peers listening 1 shared).0 1 topic ≡ none)
    × ((j : Address)
        → j ≢ 1
        → count (Subscriptions.on_interactor_closed rx peers listening 1 shared).0 j topic
          ≡ count shared j topic)
subscriber_closed-forgets_example =
    subscriber_closed-forgets rx peers listening 1 shared topic shared-IsTracked

remove_shared_outlasts_example :
    count
      (Subscriptions.on_interactor_closed rx peers listening 1
        (remove_subscription rx peers listening 1 topic shared).0).0
      1
      topic
    ≡ some 1
unfolding find2 find lexicographic
remove_shared_outlasts_example =
    remove_shared_outlasts rx peers listening 1 2 topic 1 shared refl one_is_not_two refl

listener_closed-forgets_example :
    (Set.contains 3 (find_listeners rx (Notifications.on_interactor_closed 3 listening) topic)
      ≡ false)
    × ((a : Address) (p : Bytes)
        → a ≢ 3
        → Listeners.count (Notifications.on_interactor_closed 3 listening) a p
          ≡ Listeners.count listening a p)
listener_closed-forgets_example = listener_closed-forgets rx 3 listening topic listening-IsTracked

on_listen-fresh_example :
    let d =
      on_listen rx peers 3
        (record { topic_pattern = topic; is_add = true })
        shared
        Notifications.empty in
    (d.sent ≡ announcements rx peers 3 topic shared Notifications.empty shared.subscriptions)
    × (d.thrown ≡ none)
    × (Set.contains 3 (find_listeners rx d.state topic) ≡ true)
unfolding find lexicographic keys
on_listen-fresh_example =
    on_listen-fresh rx peers 3 topic shared Notifications.empty topic ((refl, (refl, tt)), tt) refl
      refl refl refl

-- Interactor 2 asks for the pattern that interactor 3 listens to.
on_listen-lost_example :
    find_listeners rx
      (on_listen rx peers 2
        (record { topic_pattern = topic; is_add = true })
        shared
        listening).state
      topic
    ≡ find_listeners rx listening topic
unfolding find lexicographic
on_listen-lost_example = on_listen-lost rx peers 2 topic shared listening ((3, 1) ∷ []) topic refl

-- Interactor 3 subscribes twice, and asks three times to unsubscribe.
subscribed_twice-requested_example :
    let subscribed = requested rx peers listening 3 topic true 2 shared in
    (count subscribed 3 topic ≡ some 2)
    × (requested rx peers listening 3 topic false 3 subscribed ≡ subscribed)
unfolding find find2 lexicographic
subscribed_twice-requested_example =
    subscribed_twice-requested rx peers listening 3 topic 0 3 shared refl
