-- ===== src/Server/Subscriptions/Counts.antt =====
-- What each operation of the subscription manager does to the two tables, entry by entry.
use cpp_prototype.Common.{
  ℕ, ◌+◌, ◌≡◌, inl, inr, Bool, true, false, ◌&&◌, List, [], ◌∷◌, Bytes, Option, none, some, arith,
  if◌then◌else◌, Option-cases,
}
use cpp_prototype.Common.Key.{bytes_key, ℕ_key, same, same_iff}
use cpp_prototype.Common.Map.{
  Map, find, put, erase, insert, find-put, find-insert, find-erase, is_empty-find,
}
use cpp_prototype.Common.Nested.{find2, contains2}
use cpp_prototype.Common.Set
use cpp_prototype.Common.Set.{Set, contains-insert, contains-erase}
use cpp_prototype.Server.Effects.{Address, Peer, Regex}
use cpp_prototype.Server.Notifications.{NotificationManager}
use cpp_prototype.Server.Subscriptions.{
  SubscriptionManager, list_topic, unlist_topic, count_subscription, add_subscription, leave_topic,
  leave_topics, on_interactor_closed,
}

-- How often an interactor has subscribed to a topic, if it has.
abbrev pub count : SubscriptionManager → Address → Bytes → Option ℕ
count s i topic = find2 topic i s.subscriptions

-- Whether the reverse table lists a topic for an interactor.
abbrev pub is_listed : SubscriptionManager → Address → Bytes → Bool
is_listed s i topic = contains2 i topic s.subscriber_topics

abbrev pub one_more : Option ℕ → ℕ
one_more none = 1
one_more (some n) = n + 1

pub list_topic-contains2 :
    (i : Address) (t : Bytes) (m : Map Address (Set Bytes)) (j : Address) (u : Bytes)
    → contains2 j u (list_topic i t m) ≡ (if same j i && same u t then true else contains2 j u m)
unfolding list_topic contains2 Set.contains
list_topic-contains2 i t m j u = elim (Option-cases (find i m)) [
  | inl e ↦ ground (arith, find-insert j i (t ∷ []) m e, same_iff j i)
  | inr (topics, e) ↦
      ground (arith, find-put j i (Set.insert t topics) m, same_iff j i, contains-insert u t topics)
]

pub unlist_topic-contains2 :
    (i : Address) (t : Bytes) (m : Map Address (Set Bytes)) (j : Address) (u : Bytes)
    → contains2 j u (unlist_topic i t m) ≡ (if same j i && same u t then false else contains2 j u m)
unfolding unlist_topic contains2
unlist_topic-contains2 i t m j u = elim (Option-cases (find i m)) [
  | inl e ↦ ground (arith, same_iff j i)
  | inr (topics, e) ↦ ground (
    arith,
    find-put j i (Set.erase t topics) m,
    find-erase j i m,
    same_iff j i,
    contains-erase u t topics,
    Set.is_empty-contains u (Set.erase t topics),
  )
]

module _ (rx : Regex) (peers : Address → Peer) (n : NotificationManager) where
  count_subscription-find2 :
      (i : Address) (t : Bytes) (m : Map Bytes (Map Address ℕ)) (j : Address) (u : Bytes)
      → find2 u j (count_subscription rx peers n i t m).0
        ≡ (if same j i && same u t then some (one_more (find2 t i m)) else find2 u j m)
  unfolding count_subscription find2 find
  count_subscription-find2 i t m j u = elim (Option-cases (find t m)) [
    | inl e ↦ ground (arith, find-insert u t ((i, 1) ∷ []) m e, same_iff u t, same_iff j i)
    | inr (subscribers, e) ↦ elim (Option-cases (find i subscribers)) [
      | inl f ↦ ground (
        arith,
        find-put u t (insert i 1 subscribers) m,
        same_iff u t,
        find-insert j i 1 subscribers f,
        same_iff j i,
      )
      | inr (c, f) ↦ ground (
        arith,
        find-put u t (put i (c + 1) subscribers) m,
        same_iff u t,
        find-put j i (c + 1) subscribers,
        same_iff j i,
      )
    ]
  ]

  -- A subscription adds one to the count of its interactor and topic, and changes no other count.
  pub count-add_subscription :
      (i : Address) (t : Bytes) (s : SubscriptionManager) (j : Address) (u : Bytes)
      → count (add_subscription rx peers n i t s).0 j u
        ≡ (if same j i && same u t then some (one_more (count s i t)) else count s j u)
  unfolding add_subscription
  count-add_subscription i t s j u = count_subscription-find2 i t s.subscriptions j u

  pub is_listed-add_subscription :
      (i : Address) (t : Bytes) (s : SubscriptionManager) (j : Address) (u : Bytes)
      → is_listed (add_subscription rx peers n i t s).0 j u
        ≡ (if same j i && same u t then true else is_listed s j u)
  unfolding add_subscription
  is_listed-add_subscription i t s j u = list_topic-contains2 i t s.subscriber_topics j u

  leave_topic-find2 :
      (i : Address) (t : Bytes) (m : Map Bytes (Map Address ℕ)) (j : Address) (u : Bytes)
      → find2 u j (leave_topic rx peers n i t m).0
        ≡ (if same j i && same u t then none else find2 u j m)
  unfolding leave_topic find2
  leave_topic-find2 i t m j u = elim (Option-cases (find t m)) [
    | inl e ↦ ground (arith, same_iff j i, same_iff u t)
    | inr (subscribers, e) ↦ ground (
      arith,
      find-put u t (erase i subscribers) m,
      find-erase u t m,
      find-erase j i subscribers,
      is_empty-find j (erase i subscribers),
      same_iff j i,
      same_iff u t,
    )
  ]

  leave_topics-find2 :
      (i : Address) (topics : List Bytes) (m : Map Bytes (Map Address ℕ)) (j : Address) (u : Bytes)
      → find2 u j (leave_topics rx peers n i topics m).0
        ≡ (if same j i && Set.contains u topics then none else find2 u j m)
  unfolding leave_topics Set.contains
  leave_topics-find2 i [] m j u = ground arith
  leave_topics-find2 i (t ∷ topics) m j u = ground (
    arith,
    leave_topic-find2 i t m j u,
    leave_topics-find2 i topics (leave_topic rx peers n i t m).0 j u,
  )

  -- When an interactor closes, its count goes for every topic that the reverse table lists for it.
  -- No other count changes.
  pub count-on_interactor_closed :
      (i : Address) (s : SubscriptionManager) (j : Address) (u : Bytes)
      → count (on_interactor_closed rx peers n i s).0 j u
        ≡ (if same j i && is_listed s i u then none else count s j u)
  unfolding on_interactor_closed contains2
  count-on_interactor_closed i s j u = elim (Option-cases (find i s.subscriber_topics)) [
    | inl e ↦ ground arith
    | inr (topics, e) ↦ ground (arith, leave_topics-find2 i topics s.subscriptions j u)
  ]

  pub is_listed-on_interactor_closed :
      (i : Address) (s : SubscriptionManager) (j : Address) (u : Bytes)
      → is_listed (on_interactor_closed rx peers n i s).0 j u
        ≡ (if same j i then false else is_listed s j u)
  unfolding on_interactor_closed contains2
  is_listed-on_interactor_closed i s j u = elim (Option-cases (find i s.subscriber_topics)) [
    | inl e ↦ ground (arith, same_iff j i)
    | inr (topics, e) ↦ ground (arith, find-erase j i s.subscriber_topics)
  ]
