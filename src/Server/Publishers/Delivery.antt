-- ===== src/Server/Publishers/Delivery.antt =====
-- Who receives what: the messages of the publisher manager against the specifications.
use mathlib.Core.Path.{ap₂}
use cpp_prototype.Common.{
  ◌≡◌, refl, ap, ◌∙◌, Bool, true, false, List, [], ◌∷◌, ◌++◌, Bytes, if◌then◌else◌,
}
use cpp_prototype.Common.Int.{ℤ}
use cpp_prototype.Common.Key.{ℤ_key}
use cpp_prototype.Common.Set
use cpp_prototype.Common.Set.{Set, intersection, contains-intersection}
use cpp_prototype.Messages.Message.{MulticastData}
use cpp_prototype.Server.Effects.{Address, Peer, Sent, Regex}
use cpp_prototype.Server.Authorization.{
  Role, AuthorizationSpec, entitlements, subscriber, publisher,
}
use cpp_prototype.Server.Authorization.Coherence.{
  granted, IsCoherent, entitlements-granted, entitlements-IsCoherent,
}
use cpp_prototype.Server.Publishers.Selection.{let_through, select-let_through}
use cpp_prototype.Server.Subscriptions.{SubscriptionManager, find_subscribers}
use cpp_prototype.Server.Publishers.{
  PublisherManager, select, add_publisher, query, forward, send_each, publish_to, on_send_multicast,
}

-- The specifications that a manager answers from.
abbrev pub specs : PublisherManager → List AuthorizationSpec
specs p = p.authorization_manager.repository.specs

abbrev pub CacheIsCoherent : Regex → PublisherManager → Type 0
CacheIsCoherent rx p = IsCoherent rx p.authorization_manager.repository

module _ (rx : Regex) where
  pub query-granted :
      (user topic : Bytes) (role : Role) (p : PublisherManager)
      → CacheIsCoherent rx p
      → (query rx user topic role p).0 ≡ granted rx (specs p) user topic role
  unfolding query
  query-granted user topic role p v =
      entitlements-granted rx user topic role p.authorization_manager.repository v

  pub query-IsCoherent :
      (user topic : Bytes) (role : Role) (p : PublisherManager)
      → CacheIsCoherent rx p
      → CacheIsCoherent rx (query rx user topic role p).1
  unfolding query
  query-IsCoherent user topic role p v =
      entitlements-IsCoherent rx user topic role p.authorization_manager.repository v

  pub specs-query :
      (user topic : Bytes) (role : Role) (p : PublisherManager)
      → specs (query rx user topic role p).1 ≡ specs p
  unfolding query entitlements
  specs-query user topic role p = refl

-- A branch on a test, when both of its results have the property.
pub either {ℓ κ} :
    {A : Type ℓ} (P : A → Type κ) (b : Bool) {x y : A} → P x → P y → P (if b then x else y)
either P true px py = px
either P false px py = py

module _ (rx : Regex) (peers : Address → Peer) (publisher' : Address)
    (request : MulticastData) where
  -- What a subscriber is to receive of a message, by the specifications alone.
  abbrev pub due : List AuthorizationSpec → Set ℤ → Address → List Sent
  due ss from s = forward rx peers publisher' request.topic s (
      let_through from (granted rx ss (peers s).user request.topic subscriber) request.data_packets)

  abbrev pub due_all : List AuthorizationSpec → Set ℤ → List Address → List Sent
  due_all ss from [] = []
  due_all ss from (s ∷ rest) = due ss from s ++ due_all ss from rest

  send_each-due :
      (from : Set ℤ) (subscribers : List Address) (p : PublisherManager)
      → CacheIsCoherent rx p
      → (send_each rx peers from publisher' request subscribers p).1
        ≡ due_all (specs p) from subscribers
  unfolding send_each
  send_each-due from [] p v = refl
  send_each-due from (s ∷ rest) p v =
      let user = (peers s).user in
      let p1 = (query rx user request.topic subscriber p).1 in
      ap₂ ◌++◌
        (ap (forward rx peers publisher' request.topic s) (
          ap (λ to. select from to request.data_packets)
            (query-granted rx user request.topic subscriber p v)
          ∙ select-let_through from (granted rx (specs p) user request.topic subscriber)
              request.data_packets))
        (send_each-due from rest p1 (query-IsCoherent rx user request.topic subscriber p v)
          ∙ ap (λ ss. due_all ss from rest) (specs-query rx user request.topic subscriber p))

  send_each-IsCoherent :
      (from : Set ℤ) (subscribers : List Address) (p : PublisherManager)
      → CacheIsCoherent rx p
      → CacheIsCoherent rx (send_each rx peers from publisher' request subscribers p).0
  unfolding send_each
  send_each-IsCoherent from [] p v = v
  send_each-IsCoherent from (s ∷ rest) p v =
      send_each-IsCoherent from rest _
        (query-IsCoherent rx (peers s).user request.topic subscriber p v)

  add_publisher-authorization :
      (a : Address) (topic : Bytes) (p : PublisherManager)
      → (add_publisher a topic p).authorization_manager ≡ p.authorization_manager
  unfolding add_publisher
  add_publisher-authorization a topic p = refl

  add_publisher-IsCoherent :
      (a : Address) (topic : Bytes) (p : PublisherManager)
      → CacheIsCoherent rx p
      → CacheIsCoherent rx (add_publisher a topic p)
  unfolding add_publisher
  add_publisher-IsCoherent a topic p v = v

  specs-add_publisher :
      (a : Address) (topic : Bytes) (p : PublisherManager)
      → specs (add_publisher a topic p) ≡ specs p
  unfolding add_publisher
  specs-add_publisher a topic p = refl

  publish_to-due :
      (subscribers : List Address) (p : PublisherManager)
      → CacheIsCoherent rx p
      → (publish_to rx peers subscribers publisher' request p).1
        ≡ due_all
            (specs p)
            (granted rx (specs p) (peers publisher').user request.topic publisher)
            subscribers
  unfolding publish_to
  publish_to-due subscribers p v =
      let user = (peers publisher').user in
      let p1 = (query rx user request.topic publisher p).1 in
      send_each-due _ subscribers p1 (query-IsCoherent rx user request.topic publisher p v)
      ∙ ap₂ (λ ss from. due_all ss from subscribers) (specs-query rx user request.topic publisher p)
          (query-granted rx user request.topic publisher p v)

  -- A multicast sends to each subscriber of the topic, in order, what the specifications say: nothing
  -- if none of the packets may pass, and otherwise one message with those that may. Earlier queries
  -- make no difference.
  pub on_send_multicast-due :
      (subscriptions : SubscriptionManager) (p : PublisherManager)
      → CacheIsCoherent rx p
      → (on_send_multicast rx peers subscriptions publisher' request p).sent
        ≡ due_all
            (specs p)
            (granted rx (specs p) (peers publisher').user request.topic publisher)
            (find_subscribers subscriptions request.topic)
  unfolding on_send_multicast
  on_send_multicast-due subscriptions p v =
      by_subscribers (find_subscribers subscriptions request.topic)
    where
      p1 : PublisherManager
      p1 = add_publisher publisher' request.topic p

      by_subscribers :
          (subscribers : List Address)
          → (if Set.is_empty subscribers
              then (p1, [])
              else publish_to rx peers subscribers publisher' request p1).1
            ≡ due_all
                (specs p)
                (granted rx (specs p) (peers publisher').user request.topic publisher)
                subscribers
      by_subscribers [] = unfold Set.is_empty in refl
      by_subscribers (s ∷ rest) =
          unfold Set.is_empty in
          (publish_to-due (s ∷ rest) p1 (add_publisher-IsCoherent publisher' request.topic p v)
            ∙ ap
                (λ ss.
                  due_all ss (granted rx ss (peers publisher').user request.topic publisher)
                    (s ∷ rest))
                (specs-add_publisher publisher' request.topic p))

  publish_to-IsCoherent :
      (subscribers : List Address) (p : PublisherManager)
      → CacheIsCoherent rx p
      → CacheIsCoherent rx (publish_to rx peers subscribers publisher' request p).0
  unfolding publish_to
  publish_to-IsCoherent subscribers p v =
      let user = (peers publisher').user in
      let (from, p1) = query rx user request.topic publisher p in
      let (p2, sent, published) = send_each rx peers from publisher' request subscribers p1 in
      let v2 : CacheIsCoherent rx p2 =
        send_each-IsCoherent from subscribers p1
          (query-IsCoherent rx user request.topic publisher p v) in
      either (CacheIsCoherent rx) published
        (add_publisher-IsCoherent publisher' request.topic p2 v2) v2

  pub on_send_multicast-IsCoherent :
      (subscriptions : SubscriptionManager) (p : PublisherManager)
      → CacheIsCoherent rx p
      → CacheIsCoherent rx (on_send_multicast rx peers subscriptions publisher' request p).state
  unfolding on_send_multicast
  on_send_multicast-IsCoherent subscriptions p v =
      let p1 = add_publisher publisher' request.topic p in
      let v1 : CacheIsCoherent rx p1 = add_publisher-IsCoherent publisher' request.topic p v in
      let subscribers = find_subscribers subscriptions request.topic in
      either (λ (r : PublisherManager × List Sent). CacheIsCoherent rx r.0)
        (Set.is_empty subscribers) v1 (publish_to-IsCoherent subscribers p1 v1)
