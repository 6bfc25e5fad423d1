-- ===== src/Server/Subscriptions/Invariant.antt =====
-- The two tables of the subscription manager agree, as far as the operations keep them so.
use cpp_prototype.Common.{
  ℕ, ◌≡◌, ◌≢◌, inl, inr, true, Bytes, none, some, arith, Option-cases, Bool-cases,
}
use cpp_prototype.Common.Key.{bytes_key, ℕ_key, same_iff, same_refl}
use cpp_prototype.Common.Map.{find, erase, is_some, find-erase, is_empty-find}
use cpp_prototype.Common.Nested.{find2, contains2}
use cpp_prototype.Messages.Message.{SubscriptionRequest}
use cpp_prototype.Server.Effects.{Address, Peer, Regex}
use cpp_prototype.Server.Notifications.{NotificationManager}
use cpp_prototype.Server.Subscriptions.{
  SubscriptionManager, empty, unlist_topic, add_subscription, remove_counted, remove_subscription,
  on_subscription, on_interactor_closed,
}
use cpp_prototype.Server.Subscriptions.Counts.{
  count, is_listed, unlist_topic-contains2, count-add_subscription, is_listed-add_subscription,
  count-on_interactor_closed, is_listed-on_interactor_closed,
}
use cpp_prototype.Server.Subscriptions.Removal.{remove_subscription-shared}

-- Whatever the reverse table lists is a subscription.
pub record IsCoherent (s : SubscriptionManager) : Type 0 where
  pub holds : (j : Address) (u : Bytes) → is_listed s j u ≡ true → is_some (count s j u) ≡ true

-- Every subscription is listed, so that closing its interactor finds it.
pub record IsTracked (s : SubscriptionManager) : Type 0 where
  pub holds : (j : Address) (u : Bytes) → is_some (count s j u) ≡ true → is_listed s j u ≡ true

module _ (rx : Regex) (peers : Address → Peer) (n : NotificationManager) where
  add_subscription-IsCoherent :
      (i : Address) (t : Bytes) (s : SubscriptionManager)
      → IsCoherent s
      → IsCoherent (add_subscription rx peers n i t s).0
  add_subscription-IsCoherent i t s v = record {
    holds = λ j u h. ground (
      arith,
      count-add_subscription rx peers n i t s j u,
      is_listed-add_subscription rx peers n i t s j u,
      v.holds j u,
    );
  }

  -- Only the last subscriber takes its topic away.
  remove_subscription-IsCoherent :
      (i : Address) (t : Bytes) (s : SubscriptionManager)
      → IsCoherent s
      → IsCoherent (remove_subscription rx peers n i t s).0
  unfolding remove_subscription remove_counted find2
  remove_subscription-IsCoherent i t s v = record {
    holds = λ j u h. elim (Option-cases (find t s.subscriptions)) [
      | inl e ↦ ground (arith, v.holds j u)
      | inr (subscribers, e) ↦ elim (Option-cases (find i subscribers)) [
        | inl f ↦ ground (arith, v.holds j u)
        | inr (c, f) ↦ ground (
          arith,
          v.holds j u,
          unlist_topic-contains2 i t s.subscriber_topics j u,
          find-erase u t s.subscriptions,
          find-erase j i subscribers,
          is_empty-find j (erase i subscribers),
          same_iff j i,
          same_iff u t,
        )
      ]
    ];
  }

  -- A request to subscribe or to unsubscribe keeps every topic that is listed for an interactor
  -- one that it subscribes to.
  pub on_subscription-IsCoherent :
      (i : Address) (request : SubscriptionRequest) (s : SubscriptionManager)
      → IsCoherent s
      → IsCoherent (on_subscription rx peers n i request s).0
  unfolding on_subscription
  on_subscription-IsCoherent i request s v = elim (Bool-cases request.is_add) [
    | inl add ↦ rw add (add_subscription-IsCoherent i request.topic s v)
    | inr remove ↦ rw remove (remove_subscription-IsCoherent i request.topic s v)
  ]

  pub on_interactor_closed-IsCoherent :
      (i : Address) (s : SubscriptionManager)
      → IsCoherent s
      → IsCoherent (on_interactor_closed rx peers n i s).0
  on_interactor_closed-IsCoherent i s v = record {
    holds = λ j u h. ground (
      arith,
      v.holds j u,
      count-on_interactor_closed rx peers n i s j u,
      is_listed-on_interactor_closed rx peers n i s j u,
    );
  }

  pub add_subscription-IsTracked :
      (i : Address) (t : Bytes) (s : SubscriptionManager)
      → IsTracked s
      → IsTracked (add_subscription rx peers n i t s).0
  add_subscription-IsTracked i t s v = record {
    holds = λ j u h. ground (
      arith,
      count-add_subscription rx peers n i t s j u,
      is_listed-add_subscription rx peers n i t s j u,
      v.holds j u,
    );
  }

  pub on_interactor_closed-IsTracked :
      (i : Address) (s : SubscriptionManager)
      → IsTracked s
      → IsTracked (on_interactor_closed rx peers n i s).0
  on_interactor_closed-IsTracked i s v = record {
    holds = λ j u h. ground (
      arith,
      v.holds j u,
      count-on_interactor_closed rx peers n i s j u,
      is_listed-on_interactor_closed rx peers n i s j u,
      same_iff j i,
    );
  }

  -- Where every subscription is listed in the reverse table, an interactor that closes has no
  -- subscription left, and all the others keep theirs with their counts.
  pub subscriber_closed-forgets :
      (i : Address) (s : SubscriptionManager) (u : Bytes)
      → IsTracked s
      → (count (on_interactor_closed rx peers n i s).0 i u ≡ none)
        × ((j : Address) → j ≢ i → count (on_interactor_closed rx peers n i s).0 j u ≡ count s j u)
  subscriber_closed-forgets i s u v = (
    ground (arith, count-on_interactor_closed rx peers n i s i u, v.holds i u, same_refl i),
    λ j ne. ground (arith, count-on_interactor_closed rx peers n i s j u, same_iff j i),
  )

  -- Where an interactor has subscribed to a topic once, and another interactor subscribes to it
  -- too, the first that unsubscribes and then closes is still counted as a subscriber of the
  -- topic.
  pub remove_shared_outlasts :
      (i j : Address) (t : Bytes) (c : ℕ) (s : SubscriptionManager)
      → count s i t ≡ some 1
      → j ≢ i
      → count s j t ≡ some c
      → let left = (remove_subscription rx peers n i t s).0 in
        count (on_interactor_closed rx peers n i left).0 i t ≡ some 1
  remove_shared_outlasts i j t c s one other there =
      rw (remove_subscription-shared rx peers n i t s j c one other there) (
        ground (
          arith,
          count-on_interactor_closed rx peers n i
              (record s { subscriber_topics = unlist_topic i t s.subscriber_topics }) i t,
          unlist_topic-contains2 i t s.subscriber_topics i t,
          same_refl i,
          same_refl t,
        ))

pub IsCoherent-empty : IsCoherent empty
unfolding contains2 find
IsCoherent-empty = record { holds = λ j u h. cc }

pub IsTracked-empty : IsTracked empty
unfolding find2 find
IsTracked-empty = record { holds = λ j u h. cc }
