-- ===== src/Server/Hub/Runs.antt =====
-- What the server sends at any point of any run.
use cpp_prototype.Common.{
  ◌≡◌, refl, sym, ap, ◌∙◌, subst, List, [], ◌∷◌, Bytes, Option, none, All, All-append, arith,
}
use cpp_prototype.Common.Key.{bytes_key, ℕ_key}
use cpp_prototype.Common.Map.{find, erase}
use cpp_prototype.Common.Set
use cpp_prototype.Messages.Message.{
  Message, UnicastData, authentication, authenticated, multicast, unicast, subscription,
  notification, forwarded_subscription, forwarded_multicast, forwarded_unicast,
}
use cpp_prototype.Server.Effects.{Address, Peer, Sent, Regex}
use cpp_prototype.Server.Authorization.{AuthorizationSpec, construct}
use cpp_prototype.Server.Publishers.{on_send_unicast}
use cpp_prototype.Server.Publishers.Delivery.{specs, on_send_multicast-due}
use cpp_prototype.Server.Publishers.Unicast.{on_send_unicast-due}
use cpp_prototype.Server.Subscriptions.{find_subscribers}
use cpp_prototype.Server.Hub.{
  Hub, Yaml, Event, startup, interrupt, disconnected, message, make, on_interrupt, on_disconnected,
  on_message, handle, run,
}
use cpp_prototype.Server.Hub.Invariant.{IsValid, started-IsValid}
use cpp_prototype.Server.Hub.Delivery.{
  IsAllowed, due_all-IsAllowed, due_to-IsAllowed, on_subscription-IsAllowed, on_listen-IsAllowed,
  subscriptions_closed-IsAllowed, publishers_closed-IsAllowed,
}

module _ (rx : Regex) (peers : Address → Peer) where
  on_interrupt-sent : (yaml : Yaml) (h : Hub) → (on_interrupt rx yaml h).sent ≡ []
  unfolding on_interrupt
  on_interrupt-sent yaml h = ground arith

  abbrev AllowedBy : Hub → Sent → Type 0
  AllowedBy h = IsAllowed rx peers (specs h.publisher_manager)

  on_message-IsAllowed :
      (a : Address) (m : Message) (h : Hub)
      → IsValid rx h
      → All (AllowedBy h) (on_message rx peers a m h).sent
  unfolding on_message
  on_message-IsAllowed a (subscription request) h v =
      on_subscription-IsAllowed rx peers _ h.notification_manager a request h.subscription_manager
  on_message-IsAllowed a (notification request) h v =
      on_listen-IsAllowed rx peers _ a request h.subscription_manager h.notification_manager
  on_message-IsAllowed a (unicast request) h v =
      subst (All (AllowedBy h))
        (sym (on_send_unicast-due rx peers a request h.interactors h.publisher_manager v.cache))
        (due_to-IsAllowed rx peers _ a request (find request.client_id h.interactors))
  on_message-IsAllowed a (multicast request) h v =
      subst (All (AllowedBy h))
        (sym (
          on_send_multicast-due rx peers a request h.subscription_manager h.publisher_manager
            v.cache))
        (due_all-IsAllowed rx peers _ a request
          (find_subscribers h.subscription_manager request.topic))
  on_message-IsAllowed a (authentication _) h v = tt
  on_message-IsAllowed a (authenticated _) h v = tt
  on_message-IsAllowed a (forwarded_subscription _) h v = tt
  on_message-IsAllowed a (forwarded_multicast _) h v = tt
  on_message-IsAllowed a (forwarded_unicast _) h v = tt

  handle-IsAllowed :
      (e : Event) (h : Hub) → IsValid rx h → All (AllowedBy h) (handle rx peers e h).sent
  unfolding handle on_disconnected
  handle-IsAllowed (startup yaml) h v =
      subst (All (AllowedBy h)) (sym (on_interrupt-sent yaml h)) tt
  handle-IsAllowed (interrupt yaml) h v =
      subst (All (AllowedBy h)) (sym (on_interrupt-sent yaml h)) tt
  handle-IsAllowed (disconnected a) h v =
      All-append (AllowedBy h) _ _
        (subscriptions_closed-IsAllowed rx peers _ h.notification_manager a h.subscription_manager)
        (publishers_closed-IsAllowed rx peers _ _ a h.publisher_manager)
  handle-IsAllowed (message a m) h v = on_message-IsAllowed a m h v

  module _ (path : Option Bytes) (cmd_line_specs : List AuthorizationSpec) (es : List Event) where
    -- The hub of a server that has been started and has seen these events.
    abbrev pub reached : Hub
    reached = (run rx peers es (make (construct path cmd_line_specs))).0

    -- After any events, whatever the next event is: every packet of every message with data that
    -- the hub then sends is one that the specifications in force let the user named in the
    -- message publish on its topic, and let the user of the receiver see there.
    pub handle-reached-IsAllowed :
        (e : Event)
        → All
            (IsAllowed rx peers (specs reached.publisher_manager))
            (handle rx peers e reached).sent
    handle-reached-IsAllowed e =
        handle-IsAllowed e reached (started-IsValid rx peers path cmd_line_specs es)

  -- No event registers an interactor.
  erase-nil : (k : Bytes) → erase {V = Address} k [] ≡ []
  unfolding erase
  erase-nil k = refl

  interactors-on_message :
      (a : Address) (m : Message) (h : Hub)
      → (on_message rx peers a m h).state.interactors ≡ h.interactors
  unfolding on_message
  interactors-on_message a (subscription request) h = refl
  interactors-on_message a (notification request) h = refl
  interactors-on_message a (unicast request) h = refl
  interactors-on_message a (multicast request) h = refl
  interactors-on_message a (authentication _) h = refl
  interactors-on_message a (authenticated _) h = refl
  interactors-on_message a (forwarded_subscription _) h = refl
  interactors-on_message a (forwarded_multicast _) h = refl
  interactors-on_message a (forwarded_unicast _) h = refl

  interactors-on_interrupt :
      (yaml : Yaml) (h : Hub) → (on_interrupt rx yaml h).state.interactors ≡ h.interactors
  unfolding on_interrupt
  interactors-on_interrupt yaml h = ground arith

  interactors-handle :
      (e : Event) (h : Hub) → h.interactors ≡ [] → (handle rx peers e h).state.interactors ≡ []
  unfolding handle on_disconnected
  interactors-handle (startup yaml) h e = interactors-on_interrupt yaml h ∙ e
  interactors-handle (interrupt yaml) h e = interactors-on_interrupt yaml h ∙ e
  interactors-handle (disconnected a) h e = ap (erase (peers a).id) e ∙ erase-nil (peers a).id
  interactors-handle (message a m) h e = interactors-on_message a m h ∙ e

  interactors-run :
      (es : List Event) (h : Hub) → h.interactors ≡ [] → (run rx peers es h).0.interactors ≡ []
  unfolding run
  interactors-run [] h e = e
  interactors-run (x ∷ es) h e = interactors-run es _ (interactors-handle x h e)

  unknown_client :
      (a : Address) (request : UnicastData) (h : Hub)
      → h.interactors ≡ []
      → on_message rx peers a (unicast request) h ≡ record { state = h; sent = []; thrown = none }
  unfolding on_message on_send_unicast find
  unknown_client a request h e = ground arith

  -- After any events, a unicast message is dropped: nothing is sent, nothing changes and nothing
  -- is thrown, since no event registers an interactor under its client id.
  pub unicast-is_dropped :
      (path : Option Bytes) (cmd_line_specs : List AuthorizationSpec) (es : List Event)
      (a : Address) (request : UnicastData)
      → on_message rx peers a (unicast request) (reached path cmd_line_specs es)
        ≡ record { state = reached path cmd_line_specs es; sent = []; thrown = none }
  unfolding make
  unicast-is_dropped path cmd_line_specs es a request =
      unknown_client a request (reached path cmd_line_specs es)
        (interactors-run es (make (construct path cmd_line_specs)) refl)
