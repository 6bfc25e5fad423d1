-- ===== src/Server/Publishers/Closing.antt =====
-- What a publisher that closes leaves in the tables.
use cpp_prototype.Common.{
  ◌≡◌, refl, sym, subst, ◌∙◌, ap, Bool, true, false, ◌||◌, inl, inr, List, [], ◌∷◌, Bytes, Option,
  none, some, if◌then◌else◌, arith, Bool-cases, Option-cases,
}
use cpp_prototype.Common.Key.{bytes_key, ℕ_key, same, same_iff}
use cpp_prototype.Common.Map
use cpp_prototype.Common.Map.{Map, find, find-put, find-insert, find-erase}
use cpp_prototype.Common.Nested.{in_both, contains2, contains2-erase}
use cpp_prototype.Common.Ordered.{IsBelow, IsOrdered, erase-IsOrdered, find-IsBelow}
use cpp_prototype.Common.Set
use cpp_prototype.Common.Set.{Set, contains-insert, contains-erase, is_empty-contains}
use cpp_prototype.Server.Effects.{Address, Peer, Regex}
use cpp_prototype.Server.Authorization.{AuthorizationManager}
use cpp_prototype.Server.Publishers.Delivery.{CacheIsCoherent}
use cpp_prototype.Server.Authorization.Coherence
use cpp_prototype.Server.Subscriptions.{SubscriptionManager}
use cpp_prototype.Server.Publishers.{
  PublisherManager, leave_topics, drop_stale, on_interactor_closed,
}
use cpp_prototype.Server.Publishers.Tables.{IsConsistent}

-- A topic of the table that nobody publishes.
abbrev is_vacant : Option (Set Address) → Bool
is_vacant none = false
is_vacant (some s) = Set.is_empty s

module _ (rx : Regex) (peers : Address → Peer) (i : Address) where
  IsBelow-leave_topics :
      (k : Bytes) (m : Map Bytes (Set Address)) (stale : Set Bytes)
      → IsBelow k m
      → IsBelow k (leave_topics rx peers i m stale).0
  unfolding leave_topics
  IsBelow-leave_topics k [] stale b = tt
  IsBelow-leave_topics k ((t, ps) ∷ m) stale b = (b.0, IsBelow-leave_topics k m _ b.1)

  leave_topics-IsOrdered :
      (m : Map Bytes (Set Address)) (stale : Set Bytes)
      → IsOrdered m
      → IsOrdered (leave_topics rx peers i m stale).0
  unfolding leave_topics
  leave_topics-IsOrdered [] stale o = tt
  leave_topics-IsOrdered ((t, ps) ∷ m) stale o =
      (IsBelow-leave_topics t m _ o.0, leave_topics-IsOrdered m _ o.1)

  leave_topics-contains2 :
      (m : Map Bytes (Set Address)) (stale : Set Bytes) (t : Bytes) (a : Address)
      → contains2 t a (leave_topics rx peers i m stale).0
        ≡ (if same a i then false else contains2 t a m)
  unfolding leave_topics contains2 find
  leave_topics-contains2 [] stale t a = ground arith
  leave_topics-contains2 ((k, ps) ∷ m) stale t a = ground (
    arith,
    leave_topics-contains2 m (if Set.is_empty (Set.erase i ps) then Set.insert k stale else stale) t
        a,
    contains-erase a i ps,
    same_iff t k,
  )

  -- The stale topics are those that are left with no publisher.
  contains-stale :
      (m : Map Bytes (Set Address)) (stale : Set Bytes) (t : Bytes)
      → IsOrdered m
      → Set.contains t (leave_topics rx peers i m stale).1
        ≡ (Set.contains t stale || is_vacant (find t (leave_topics rx peers i m stale).0))
  unfolding leave_topics find
  contains-stale [] stale t o = ground arith
  contains-stale ((k, ps) ∷ m) stale t o =
      let stale' = if Set.is_empty (Set.erase i ps) then Set.insert k stale else stale in
      ground (
        arith,
        contains-stale m stale' t o.1,
        contains-insert t k stale,
        same_iff t k,
        find-IsBelow k (leave_topics rx peers i m stale').0 (IsBelow-leave_topics k m stale' o.0),
      )

  drop_stale-contains2 :
      (subscriptions : SubscriptionManager) (topics : List Bytes) (m : Map Bytes (Set Address))
      (t : Bytes) (a : Address)
      → contains2 t a (drop_stale rx peers subscriptions i topics m).0
        ≡ (if Set.contains t topics then false else contains2 t a m)
  unfolding drop_stale Set.contains
  drop_stale-contains2 subscriptions [] m t a = refl
  drop_stale-contains2 subscriptions (u ∷ topics) m t a = ground (
    arith,
    drop_stale-contains2 subscriptions topics (Map.erase u m) t a,
    contains2-erase t a u m,
  )

  drop_stale-IsOrdered :
      (subscriptions : SubscriptionManager) (topics : List Bytes) (m : Map Bytes (Set Address))
      → IsOrdered m
      → IsOrdered (drop_stale rx peers subscriptions i topics m).0
  unfolding drop_stale
  drop_stale-IsOrdered subscriptions [] m o = o
  drop_stale-IsOrdered subscriptions (u ∷ topics) m o =
      drop_stale-IsOrdered subscriptions topics (Map.erase u m) (erase-IsOrdered u m o)

  -- A topic with an empty set has no publisher.
  vacant-contains2 :
      (t : Bytes) (a : Address) (m : Map Bytes (Set Address))
      → is_vacant (find t m) ≡ true
      → contains2 t a m ≡ false
  unfolding contains2
  vacant-contains2 t a m h = elim (Option-cases (find t m)) [
    | inl e ↦ ground arith
    | inr (s, e) ↦ ground (arith, is_empty-contains a s)
  ]

  -- The tables when a publisher closes.
  abbrev left : PublisherManager → Map Bytes (Set Address)
  left p = (leave_topics rx peers i p.topic_publishers []).0

  abbrev stale : PublisherManager → Set Bytes
  stale p = (leave_topics rx peers i p.topic_publishers []).1

  left_and_dropped :
      (subscriptions : SubscriptionManager) (p : PublisherManager) (t : Bytes) (a : Address)
      → IsOrdered p.topic_publishers
      → contains2 t a (drop_stale rx peers subscriptions i (stale p) (left p)).0
        ≡ (if same a i then false else contains2 t a p.topic_publishers)
  unfolding Set.contains
  left_and_dropped subscriptions p t a o = elim (Bool-cases (is_vacant (find t (left p)))) [
    | inl v ↦ ground (
      arith,
      drop_stale-contains2 subscriptions (stale p) (left p) t a,
      leave_topics-contains2 p.topic_publishers [] t a,
      contains-stale p.topic_publishers [] t o,
      vacant-contains2 t a (left p) v,
    )
    | inr v ↦ ground (
      arith,
      drop_stale-contains2 subscriptions (stale p) (left p) t a,
      leave_topics-contains2 p.topic_publishers [] t a,
      contains-stale p.topic_publishers [] t o,
    )
  ]

  -- An interactor that has published nothing is in no topic.
  unknown-contains2 :
      (p : PublisherManager) (t : Bytes)
      → IsConsistent p
      → find i p.publisher_topics ≡ none
      → contains2 t i p.topic_publishers ≡ false
  unfolding contains2
  unknown-contains2 p t v e = v.agree i t ∙ ap (in_both t) e

  -- Where the two tables of publishers agree and the table of topics is in order, closing an
  -- interactor takes it out of every topic, and leaves every other publisher of every topic in
  -- place.
  pub publisher_closed-contains2 :
      (subscriptions : SubscriptionManager) (p : PublisherManager) (t : Bytes) (a : Address)
      → IsConsistent p
      → contains2 t a (on_interactor_closed rx peers subscriptions i p).state.topic_publishers
        ≡ (if same a i then false else contains2 t a p.topic_publishers)
  unfolding on_interactor_closed
  publisher_closed-contains2 subscriptions p t a v =
      elim (Option-cases (find i p.publisher_topics)) [
        | inl e ↦ ground (arith, unknown-contains2 p t v e, same_iff a i)
        | inr (topics, e) ↦ ground (arith, left_and_dropped subscriptions p t a v.ordered)
      ]

  on_interactor_closed-topics :
      (subscriptions : SubscriptionManager) (p : PublisherManager) (t : Bytes) (a : Address)
      → contains2 a t (on_interactor_closed rx peers subscriptions i p).state.publisher_topics
        ≡ (if same a i then false else contains2 a t p.publisher_topics)
  unfolding on_interactor_closed contains2
  on_interactor_closed-topics subscriptions p t a =
      elim (Option-cases (find i p.publisher_topics)) [
        | inl e ↦ ground (arith, same_iff a i)
        | inr (topics, e) ↦ ground (arith, find-erase a i p.publisher_topics)
      ]

  on_interactor_closed-known :
      (subscriptions : SubscriptionManager) (p : PublisherManager) (topics : Set Bytes)
      → find i p.publisher_topics ≡ some topics
      → (on_interactor_closed rx peers subscriptions i p).state.topic_publishers
        ≡ (drop_stale rx peers subscriptions i (stale p) (left p)).0
  unfolding on_interactor_closed
  on_interactor_closed-known subscriptions p topics e = ground arith

  on_interactor_closed-unknown :
      (subscriptions : SubscriptionManager) (p : PublisherManager)
      → find i p.publisher_topics ≡ none
      → (on_interactor_closed rx peers subscriptions i p).state.topic_publishers
        ≡ p.topic_publishers
  unfolding on_interactor_closed
  on_interactor_closed-unknown subscriptions p e = ground arith

  on_interactor_closed-IsOrdered :
      (subscriptions : SubscriptionManager) (p : PublisherManager)
      → IsOrdered p.topic_publishers
      → IsOrdered (on_interactor_closed rx peers subscriptions i p).state.topic_publishers
  on_interactor_closed-IsOrdered subscriptions p o =
      elim (Option-cases (find i p.publisher_topics)) [
        | inl e ↦
            subst (λ (m : Map Bytes (Set Address)). IsOrdered m)
              (sym (on_interactor_closed-unknown subscriptions p e)) o
        | inr (topics, e) ↦
            subst (λ (m : Map Bytes (Set Address)). IsOrdered m)
              (sym (on_interactor_closed-known subscriptions p topics e))
              (drop_stale-IsOrdered subscriptions (stale p) (left p)
                (leave_topics-IsOrdered p.topic_publishers [] o))
      ]

  -- Where the two tables of publishers agree and the table of topics is in order, both still hold
  -- after an interactor has been closed.
  pub publisher_closed-IsConsistent :
      (subscriptions : SubscriptionManager) (p : PublisherManager)
      → IsConsistent p
      → IsConsistent (on_interactor_closed rx peers subscriptions i p).state
  publisher_closed-IsConsistent subscriptions p v = record {
    agree = λ a t. ground (
      arith,
      publisher_closed-contains2 subscriptions p t a v,
      on_interactor_closed-topics subscriptions p t a,
      v.agree a t,
    );
    ordered = on_interactor_closed-IsOrdered subscriptions p v.ordered;
  }

  pub on_interactor_closed-authorization :
      (subscriptions : SubscriptionManager) (p : PublisherManager)
      → (on_interactor_closed rx peers subscriptions i p).state.authorization_manager
        ≡ p.authorization_manager
  unfolding on_interactor_closed
  on_interactor_closed-authorization subscriptions p =
      elim (Option-cases (find i p.publisher_topics)) [
        | inl e ↦ ground arith
        | inr (topics, e) ↦ ground arith
      ]

  pub on_interactor_closed-IsCoherent :
      (subscriptions : SubscriptionManager) (p : PublisherManager)
      → CacheIsCoherent rx p
      → CacheIsCoherent rx (on_interactor_closed rx peers subscriptions i p).state
  on_interactor_closed-IsCoherent subscriptions p v =
      subst (λ (m : AuthorizationManager). Coherence.IsCoherent rx m.repository)
        (sym (on_interactor_closed-authorization subscriptions p)) v
