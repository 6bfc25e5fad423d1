-- ===== src/Server/Hub/Reload.antt =====
-- `on_interrupt`, which reads the authorization file again.
use cpp_prototype.Common.{◌≡◌, refl, ap, ◌∙◌, List, [], ◌∷◌, Bytes, All}
use cpp_prototype.Common.Int.{ℤ}
use cpp_prototype.Common.Key.{ℤ_key}
use cpp_prototype.Common.Map.{Map}
use cpp_prototype.Common.Set
use cpp_prototype.Common.Set.{Set}
use cpp_prototype.Messages.Message.{
  Message, MulticastData, UnicastData, authentication, authenticated, multicast, unicast,
  subscription, notification, forwarded_subscription, forwarded_multicast, forwarded_unicast,
}
use cpp_prototype.Server.Effects.{Address, Peer, Sent, Regex}
use cpp_prototype.Server.Authorization.{AuthorizationManager, subscriber, publisher}
use cpp_prototype.Server.Publishers.{
  PublisherManager, add_publisher, query, send_each, publish_to, on_send_multicast, on_send_unicast,
}
use cpp_prototype.Server.Publishers.Delivery.{specs, specs-query, either}
use cpp_prototype.Server.Publishers.Closing.{on_interactor_closed-authorization}
use cpp_prototype.Server.Publishers.Unicast.{after, queried}
use cpp_prototype.Server.Subscriptions.{SubscriptionManager, find_subscribers}
use cpp_prototype.Server.Hub.{
  Hub, Event, startup, interrupt, disconnected, message, on_disconnected, on_message, handle, run,
}

-- An event that does not load the configuration.
abbrev pub IsQuiet : Event → Type 0
IsQuiet (startup yaml) = ⊥
IsQuiet (interrupt yaml) = ⊥
IsQuiet (disconnected a) = Unit {0}
IsQuiet (message a m) = Unit {0}

module _ (rx : Regex) (peers : Address → Peer) where
  module _ (a : Address) (request : MulticastData) where
    specs-send_each :
        (from : Set ℤ) (subscribers : List Address) (p : PublisherManager)
        → specs (send_each rx peers from a request subscribers p).0 ≡ specs p
    unfolding send_each
    specs-send_each from [] p = refl
    specs-send_each from (s ∷ rest) p =
        specs-send_each from rest _ ∙ specs-query rx (peers s).user request.topic subscriber p

    specs-publish_to :
        (subscribers : List Address) (p : PublisherManager)
        → specs (publish_to rx peers subscribers a request p).0 ≡ specs p
    unfolding publish_to add_publisher
    specs-publish_to subscribers p =
        let (from, p1) = query rx (peers a).user request.topic publisher p in
        let (p2, sent, published) = send_each rx peers from a request subscribers p1 in
        let kept : specs p2 ≡ specs p =
          specs-send_each from subscribers p1
          ∙ specs-query rx (peers a).user request.topic publisher p in
        either (λ (q : PublisherManager). specs q ≡ specs p) published kept kept

    specs-on_send_multicast :
        (s : SubscriptionManager) (p : PublisherManager)
        → specs (on_send_multicast rx peers s a request p).state ≡ specs p
    unfolding on_send_multicast add_publisher
    specs-on_send_multicast s p =
        let subscribers = find_subscribers s request.topic in
        either (λ (r : PublisherManager × List Sent). specs r.0 ≡ specs p)
          (Set.is_empty subscribers) refl
          (specs-publish_to subscribers (add_publisher a request.topic p))

  specs-on_send_unicast :
      (interactors : Map Bytes Address) (a : Address) (request : UnicastData) (p : PublisherManager)
      → specs (on_send_unicast rx peers interactors a request p).0 ≡ specs p
  unfolding add_publisher
  specs-on_send_unicast interactors a request p =
      after rx peers a request interactors p (λ q. specs q ≡ specs p) refl kept kept
    where
      kept :
          (receiver : Address) → specs (queried rx peers a request interactors p receiver) ≡ specs p
      kept receiver =
          specs-query rx (peers receiver).user request.topic subscriber _
          ∙ specs-query rx (peers a).user request.topic publisher p

  specs-on_message :
      (a : Address) (m : Message) (h : Hub)
      → specs (on_message rx peers a m h).state.publisher_manager ≡ specs h.publisher_manager
  unfolding on_message
  specs-on_message a (subscription request) h = refl
  specs-on_message a (notification request) h = refl
  specs-on_message a (unicast request) h =
      specs-on_send_unicast h.interactors a request h.publisher_manager
  specs-on_message a (multicast request) h =
      specs-on_send_multicast a request h.subscription_manager h.publisher_manager
  specs-on_message a (authentication _) h = refl
  specs-on_message a (authenticated _) h = refl
  specs-on_message a (forwarded_subscription _) h = refl
  specs-on_message a (forwarded_multicast _) h = refl
  specs-on_message a (forwarded_unicast _) h = refl

  specs-handle :
      (e : Event) (h : Hub)
      → IsQuiet e
      → specs (handle rx peers e h).state.publisher_manager ≡ specs h.publisher_manager
  unfolding handle on_disconnected
  specs-handle (startup yaml) h q = elim q [ ]
  specs-handle (interrupt yaml) h q = elim q [ ]
  specs-handle (disconnected a) h q =
      ap (λ (m : AuthorizationManager). m.repository.specs)
        (on_interactor_closed-authorization rx peers a _ h.publisher_manager)
  specs-handle (message a m) h q = specs-on_message a m h

  pub specs-run :
      (es : List Event) (h : Hub)
      → All IsQuiet es
      → specs (run rx peers es h).0.publisher_manager ≡ specs h.publisher_manager
  unfolding run
  specs-run [] h q = refl
  specs-run (e ∷ es) h q = specs-run es _ q.1 ∙ specs-handle e h q.0
