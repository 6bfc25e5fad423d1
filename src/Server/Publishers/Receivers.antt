-- ===== src/Server/Publishers/Receivers.antt =====
-- Whom a multicast reaches.
use cpp_prototype.Common.{
  ◌≡◌, sym, subst, ◌∙◌, true, List, [], ◌∷◌, Bytes, Option, none, some, All, All-append, All-imply,
  arith,
}
use cpp_prototype.Common.Int.{ℤ}
use cpp_prototype.Common.Key.{ℕ_key, bytes_key, same_refl}
use cpp_prototype.Common.Map.{is_some}
use cpp_prototype.Common.Set
use cpp_prototype.Common.Set.{Set}
use cpp_prototype.Messages.Message.{DataPacket, MulticastData}
use cpp_prototype.Server.Effects.{Address, Peer, Sent, Regex}
use cpp_prototype.Server.Authorization.{AuthorizationSpec}
use cpp_prototype.Server.Subscriptions.{SubscriptionManager, find_subscribers}
use cpp_prototype.Server.Subscriptions.Counts.{count}
use cpp_prototype.Server.Subscriptions.Lookup.{contains-find_subscribers}
use cpp_prototype.Server.Publishers.{PublisherManager, forward, on_send_multicast}
use cpp_prototype.Server.Publishers.Delivery.{CacheIsCoherent, due_all, on_send_multicast-due}

module _ (rx : Regex) (peers : Address → Peer) (a : Address) (request : MulticastData) where
  abbrev IsTo : List Address → Sent → Type 0
  IsTo subscribers x = Set.contains x.receiver subscribers ≡ true

  forward-IsTo :
      (topic : Bytes) (s : Address) (rest : List Address) (o : Option (List DataPacket))
      → All (IsTo (s ∷ rest)) (forward rx peers a topic s o)
  unfolding Set.contains
  forward-IsTo topic s rest none = tt
  forward-IsTo topic s rest (some packets) = (ground (arith, same_refl s), tt)

  due_all-IsTo :
      (ss : List AuthorizationSpec) (from : Set ℤ) (subscribers : List Address)
      → All (IsTo subscribers) (due_all rx peers a request ss from subscribers)
  unfolding Set.contains
  due_all-IsTo ss from [] = tt
  due_all-IsTo ss from (s ∷ rest) =
      All-append (IsTo (s ∷ rest)) _ _ (forward-IsTo request.topic s rest _) (
        All-imply (IsTo rest) (IsTo (s ∷ rest)) _ (λ x h. ground arith) (due_all-IsTo ss from rest))

  -- With a coherent authorization cache, every message that a multicast sends goes to an
  -- interactor that is counted as a subscriber of the topic.
  pub on_send_multicast-IsTo :
      (subscriptions : SubscriptionManager) (p : PublisherManager)
      → CacheIsCoherent rx p
      → All
          (λ (x : Sent). is_some (count subscriptions x.receiver request.topic) ≡ true)
          (on_send_multicast rx peers subscriptions a request p).sent
  on_send_multicast-IsTo subscriptions p v =
      subst (All (λ (x : Sent). is_some (count subscriptions x.receiver request.topic) ≡ true))
        (sym (on_send_multicast-due rx peers a request subscriptions p v))
        (All-imply (IsTo (find_subscribers subscriptions request.topic)) _ _
          (λ x h. sym (contains-find_subscribers subscriptions x.receiver request.topic) ∙ h)
          (due_all-IsTo _ _ (find_subscribers subscriptions request.topic)))
