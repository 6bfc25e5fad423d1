-- ===== src/Server/Subscriptions/Removal.antt =====
-- `remove_subscription` works on a copy of the topic's subscribers: what is left of its effect.
use cpp_prototype.Common.{
  ℕ, zero, suc, ◌+◌, ◌<◌, ◌≡◌, refl, ap, ◌∙◌, Bool, List, ◌≢◌, inl, inr, true, false, [], Bytes,
  none, some, arith, Option-cases, Bool-cases,
}
use cpp_prototype.Common.Key.{bytes_key, ℕ_key, same, same_iff, same_refl}
use cpp_prototype.Common.Map.{find, erase, is_empty, find-erase, is_empty-find, is_empty-of_find}
use cpp_prototype.Common.Nested.{find2}
use cpp_prototype.Server.Effects.{Address, Peer, Sent, Regex}
use cpp_prototype.Server.Notifications.{NotificationManager, notify}
use cpp_prototype.Server.Subscriptions.{
  SubscriptionManager, unlist_topic, remove_counted, remove_subscription, on_subscription,
}
use cpp_prototype.Server.Subscriptions.Counts.{
  count, count-add_subscription, is_listed, unlist_topic-contains2,
}

module _ (rx : Regex) (peers : Address → Peer) (n : NotificationManager) (i : Address) (t : Bytes)
    (s : SubscriptionManager) where
  pub is_listed-remove_subscription :
      (j : Address) (u : Bytes)
      → is_listed (remove_subscription rx peers n i t s).0 j u ≡ true
      → is_listed s j u ≡ true
  unfolding remove_subscription remove_counted
  is_listed-remove_subscription j u h = elim (Option-cases (find t s.subscriptions)) [
    | inl e ↦ ground arith
    | inr (subscribers, e) ↦ elim (Option-cases (find i subscribers)) [
      | inl f ↦ ground arith
      | inr (c, f) ↦ ground (arith, unlist_topic-contains2 i t s.subscriber_topics j u)
    ]
  ]

  -- Where an interactor has no subscription to a topic, or more than one, a request to
  -- unsubscribe changes nothing, the count included, and sends nothing.
  pub remove_subscription-unchanged :
      ((c : ℕ) → count s i t ≡ some c → 1 < c) → remove_subscription rx peers n i t s ≡ (s, [])
  unfolding remove_subscription find2
  remove_subscription-unchanged h = elim (Option-cases (find t s.subscriptions)) [
    | inl e ↦ ground arith
    | inr (subscribers, e) ↦ elim (Option-cases (find i subscribers)) [
      | inl f ↦ ground arith
      | inr (c, f) ↦ ground (arith, h c)
    ]
  ]

  -- With one subscription, and another subscriber to the topic, the subscription stays; only the
  -- reverse table forgets it, and nobody is told.
  pub remove_subscription-shared :
      (j : Address) (c : ℕ)
      → count s i t ≡ some 1
      → j ≢ i
      → count s j t ≡ some c
      → remove_subscription rx peers n i t s
        ≡ (record s { subscriber_topics = unlist_topic i t s.subscriber_topics }, [])
  unfolding remove_subscription find2
  remove_subscription-shared j c one other there = elim (Option-cases (find t s.subscriptions)) [
    | inl e ↦ ground arith
    | inr (subscribers, e) ↦
        ground
          (arith, find-erase j i subscribers, is_empty-find j (erase i subscribers), same_iff j i)
  ]

  -- With one subscription, and no other subscriber, the topic is forgotten, and its listeners are told.
  pub remove_subscription-sole :
      count s i t ≡ some 1
      → ((j : Address) → j ≢ i → count s j t ≡ none)
      → remove_subscription rx peers n i t s ≡ (
        record {
          subscriptions = erase t s.subscriptions;
          subscriber_topics = unlist_topic i t s.subscriber_topics;
        },
        notify rx peers n i t false,
      )
  unfolding remove_subscription find2
  remove_subscription-sole one others = elim (Option-cases (find t s.subscriptions)) [
    | inl e ↦ ground arith
    | inr (subscribers, e) ↦
        let alone : is_empty (erase i subscribers) ≡ true =
          is_empty-of_find (erase i subscribers) (λ j. elim (Bool-cases (same j i)) [
            | inl self ↦ ground (arith, find-erase j i subscribers)
            | inr not_self ↦
                ground
                  (arith, find-erase j i subscribers, others j (λ p. ground (arith, same_iff j i)))
          ]) in
        ground (arith, alone)
  ]

module _ (rx : Regex) (peers : Address → Peer) (n : NotificationManager) (i : Address)
    (t : Bytes) where
  -- So many requests of an interactor about a topic, one after the other.
  abbrev pub requested : Bool → ℕ → SubscriptionManager → SubscriptionManager
  requested is_add zero s = s
  requested is_add (suc k) s =
      requested is_add k (on_subscription rx peers n i (record { topic = t; is_add = is_add }) s).0

  counted_twice-requested :
      (k c : ℕ) (s : SubscriptionManager)
      → count s i t ≡ some (suc (suc c))
      → requested false k s ≡ s
  unfolding on_subscription
  counted_twice-requested zero c s h = refl
  counted_twice-requested (suc k) c s h =
      ap (λ (r : SubscriptionManager × List Sent). requested false k r.0)
        (remove_subscription-unchanged rx peers n i t s (λ d e. ground arith))
      ∙ counted_twice-requested k c s h

  count-requested :
      (k c : ℕ) (s : SubscriptionManager)
      → count s i t ≡ some c
      → count (requested true k s) i t ≡ some (c + k)
  unfolding on_subscription
  count-requested zero c s h = ground arith
  count-requested (suc k) c s h =
      count-requested k (suc c) _
        (ground (arith, count-add_subscription rx peers n i t s i t, same_refl i, same_refl t))
      ∙ ground arith

  -- An interactor that has no subscription to a topic and asks for it twice or more is counted as
  -- often as it has asked; from then on no number of its requests to unsubscribe changes
  -- anything, neither the count nor any table.
  pub subscribed_twice-requested :
      (m k : ℕ) (s : SubscriptionManager)
      → count s i t ≡ none
      → let subscribed = requested true (suc (suc m)) s in
        (count subscribed i t ≡ some (suc (suc m))) × (requested false k subscribed ≡ subscribed)
  unfolding on_subscription
  subscribed_twice-requested m k s new =
      let counted : count (requested true (suc (suc m)) s) i t ≡ some (suc (suc m)) =
        count-requested (suc m) 1 _
          (ground (arith, count-add_subscription rx peers n i t s i t, same_refl i, same_refl t))
        ∙ ground arith in
      (counted, counted_twice-requested k m _ counted)
