-- ===== src/Server/Publishers/Tables.antt =====
-- The two tables of the publisher manager: who publishes which topic, and the reverse.
use cpp_prototype.Common.{
  ◌≡◌, true, ◌&&◌, inl, inr, List, [], ◌∷◌, Bytes, if◌then◌else◌, arith, Option-cases,
}
use cpp_prototype.Common.Key.{Key, bytes_key, ℕ_key, same, same_iff}
use cpp_prototype.Common.Map.{Map, find, find-put, find-insert}
use cpp_prototype.Common.Nested.{contains2}
use cpp_prototype.Common.Ordered.{IsOrdered, put-IsOrdered, insert-IsOrdered}
use cpp_prototype.Common.Set
use cpp_prototype.Common.Set.{Set, contains-insert, contains-erase, is_empty-contains}
use cpp_prototype.Server.Effects.{Address, Peer, Sent, Regex}
use cpp_prototype.Messages.Message.{MulticastData}
use cpp_prototype.Common.Int.{ℤ}
use cpp_prototype.Server.Authorization.{Role, subscriber, publisher}
use cpp_prototype.Server.Publishers.Delivery.{either}
use cpp_prototype.Server.Subscriptions.{SubscriptionManager, find_subscribers}
use cpp_prototype.Server.Publishers.{
  PublisherManager, join, add_publisher, query, send_each, publish_to, on_send_multicast,
}

join-contains2 {ℓ κ} :
    {K : Type ℓ} {V : Type κ} ⦃key : Key K⦄ ⦃key' : Key V⦄ (k : K) (v : V) (m : Map K (Set V))
    (j : K) (w : V)
    → contains2 j w (join k v m) ≡ (if same j k && same w v then true else contains2 j w m)
unfolding join contains2 Set.contains
join-contains2 k v m j w = elim (Option-cases (find k m)) [
  | inl e ↦ ground (arith, find-insert j k (v ∷ []) m e, same_iff j k)
  | inr (s, e) ↦
      ground (arith, find-put j k (Set.insert v s) m, same_iff j k, contains-insert w v s)
]

join-IsOrdered {ℓ κ} :
    {K : Type ℓ} {V : Type κ} ⦃key : Key K⦄ ⦃key' : Key V⦄ (k : K) (v : V) (m : Map K (Set V))
    → IsOrdered m
    → IsOrdered (join k v m)
unfolding join
join-IsOrdered k v m o = elim (Option-cases (find k m)) [
  | inl e ↦ ground (arith, insert-IsOrdered k (v ∷ []) m o)
  | inr (s, e) ↦ ground (arith, put-IsOrdered k (Set.insert v s) m o)
]

-- An interactor is among a topic's publishers exactly when the topic is among those it publishes.
pub record IsConsistent (p : PublisherManager) : Type 0 where
  pub agree :
      (a : Address) (t : Bytes)
      → contains2 t a p.topic_publishers ≡ contains2 a t p.publisher_topics
  pub ordered : IsOrdered p.topic_publishers

-- Where the two tables of publishers agree and the table of topics is in order, both still hold
-- after a publisher has been added to a topic.
pub add_publisher-IsConsistent :
    (a : Address) (t : Bytes) (p : PublisherManager)
    → IsConsistent p
    → IsConsistent (add_publisher a t p)
unfolding add_publisher
add_publisher-IsConsistent a t p v = record {
  agree = λ b u. ground (
    arith,
    join-contains2 t a p.topic_publishers u b,
    join-contains2 a t p.publisher_topics b u,
    v.agree b u,
  );
  ordered = join-IsOrdered t a p.topic_publishers v.ordered;
}

-- Queries and the sends of a multicast leave the tables alone, but for `add_publisher`.
pub query-IsConsistent :
    (rx : Regex) (user topic : Bytes) (role : Role) (p : PublisherManager)
    → IsConsistent p
    → IsConsistent (query rx user topic role p).1
unfolding query
query-IsConsistent rx user topic role p v = record { agree = v.agree; ordered = v.ordered }

module _ (rx : Regex) (peers : Address → Peer) (publisher' : Address)
    (request : MulticastData) where
  send_each-IsConsistent :
      (from : Set ℤ) (subscribers : List Address) (p : PublisherManager)
      → IsConsistent p
      → IsConsistent (send_each rx peers from publisher' request subscribers p).0
  unfolding send_each
  send_each-IsConsistent from [] p v = v
  send_each-IsConsistent from (s ∷ rest) p v =
      send_each-IsConsistent from rest _
        (query-IsConsistent rx (peers s).user request.topic subscriber p v)

  publish_to-IsConsistent :
      (subscribers : List Address) (p : PublisherManager)
      → IsConsistent p
      → IsConsistent (publish_to rx peers subscribers publisher' request p).0
  unfolding publish_to
  publish_to-IsConsistent subscribers p v =
      let user = (peers publisher').user in
      let (from, p1) = query rx user request.topic publisher p in
      let (p2, sent, published) = send_each rx peers from publisher' request subscribers p1 in
      let v2 : IsConsistent p2 =
        send_each-IsConsistent from subscribers p1
          (query-IsConsistent rx user request.topic publisher p v) in
      either IsConsistent published (add_publisher-IsConsistent publisher' request.topic p2 v2) v2

  pub on_send_multicast-IsConsistent :
      (subscriptions : SubscriptionManager) (p : PublisherManager)
      → IsConsistent p
      → IsConsistent (on_send_multicast rx peers subscriptions publisher' request p).state
  unfolding on_send_multicast
  on_send_multicast-IsConsistent subscriptions p v =
      let p1 = add_publisher publisher' request.topic p in
      let v1 : IsConsistent p1 = add_publisher-IsConsistent publisher' request.topic p v in
      let subscribers = find_subscribers subscriptions request.topic in
      either (λ (r : PublisherManager × List Sent). IsConsistent r.0) (Set.is_empty subscribers) v1
        (publish_to-IsConsistent subscribers p1 v1)
