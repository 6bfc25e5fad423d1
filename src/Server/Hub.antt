-- ===== src/Server/Hub.antt =====
-- src/server/hub.cpp and .hpp, and the calls that src/server/distributor.cpp makes of the hub.
pub mod Invariant
pub mod Delivery
pub mod Runs
pub mod Reload
use cpp_prototype.Common.{
  Bool, List, [], ◌∷◌, ◌++◌, Bytes, Option, none, some, Outcome, ok, err, unhandled_message,
}
use cpp_prototype.Common.Key.{bytes_key}
use cpp_prototype.Common.Map.{Map, insert, erase}
use cpp_prototype.Messages.Message.{
  Message, authentication, authenticated, multicast, unicast, subscription, notification,
  forwarded_subscription, forwarded_multicast, forwarded_unicast,
}
use cpp_prototype.Server.Effects.{Address, Peer, Sent, Regex, Done, done}
use cpp_prototype.Server.Authorization.{AuthorizationManager, Authorization, load}
use cpp_prototype.Server.Publishers
use cpp_prototype.Server.Publishers.{PublisherManager, on_send_unicast, on_send_multicast}
use cpp_prototype.Server.Subscriptions
use cpp_prototype.Server.Subscriptions.{SubscriptionManager, on_subscription}
use cpp_prototype.Server.Notifications
use cpp_prototype.Server.Notifications.{NotificationManager}
use cpp_prototype.Server.Listening.{on_listen}

pub record Hub : Type 0 where
  pub interactors : Map Bytes Address
  pub publisher_manager : PublisherManager
  pub subscription_manager : SubscriptionManager
  pub notification_manager : NotificationManager

-- The constructor.
unfoldable pub make : AuthorizationManager → Hub
make manager = record {
  interactors = [];
  publisher_manager = record {
    authorization_manager = manager;
    topic_publishers = [];
    publisher_topics = [];
  };
  subscription_manager = Subscriptions.empty;
  notification_manager = Notifications.empty;
}

-- What the YAML library decodes of a file, or its exception.
abbrev pub Yaml : Type 0
Yaml = Bytes → Outcome (Map Bytes (Map Bytes Authorization))

-- `PublisherManager::reload_authorizations`
unfoldable pub reload_authorizations : Regex → Yaml → PublisherManager → Outcome PublisherManager
reload_authorizations rx yaml p = elim (load rx yaml p.authorization_manager) [
  | ok manager ↦ ok (record p { authorization_manager = manager })
  | err e ↦ err e
]

-- `on_startup` and `on_interrupt`: both only reload.
unfoldable pub on_interrupt : Regex → Yaml → Hub → Done Hub
on_interrupt rx yaml h = elim (reload_authorizations rx yaml h.publisher_manager) [
  | ok p ↦ done (record h { publisher_manager = p }) []
  | err e ↦ record { state = h; sent = []; thrown = some e }
]

-- The calls that the distributor, and the interactors that it makes, make of the hub.
pub data Event : Type 0 where
  startup interrupt : Yaml → Event
  disconnected : Address → Event
  message : Address → Message → Event

module _ (rx : Regex) (peers : Address → Peer) where
  unfoldable pub on_connected : Address → Hub → Hub
  on_connected interactor h = record h {
    interactors = insert (peers interactor).id interactor h.interactors;
  }

  unfoldable pub on_disconnected : Address → Hub → Done Hub
  on_disconnected interactor h =
      let (s, sent) =
        Subscriptions.on_interactor_closed rx peers h.notification_manager interactor
          h.subscription_manager in
      let n = Notifications.on_interactor_closed interactor h.notification_manager in
      let d = Publishers.on_interactor_closed rx peers s interactor h.publisher_manager in
      record {
        state = record {
          interactors = erase (peers interactor).id h.interactors;
          publisher_manager = d.state;
          subscription_manager = s;
          notification_manager = n;
        };
        sent = sent ++ d.sent;
        thrown = d.thrown;
      }

  unfoldable pub on_message : Address → Message → Hub → Done Hub
  on_message interactor (subscription request) h =
      let (s, sent) =
        on_subscription rx peers h.notification_manager interactor request h.subscription_manager in
      done (record h { subscription_manager = s }) sent
  on_message interactor (notification request) h =
      let d = on_listen rx peers interactor request h.subscription_manager h.notification_manager in
      record {
        state = record h { notification_manager = d.state };
        sent = d.sent;
        thrown = d.thrown;
      }
  on_message interactor (unicast request) h =
      let (p, sent) =
        on_send_unicast rx peers h.interactors interactor request h.publisher_manager in
      done (record h { publisher_manager = p }) sent
  on_message interactor (multicast request) h =
      let d =
        on_send_multicast rx peers h.subscription_manager interactor request h.publisher_manager in
      record { state = record h { publisher_manager = d.state }; sent = d.sent; thrown = d.thrown }
  on_message interactor (authentication _) h = record {
    state = h;
    sent = [];
    thrown = some unhandled_message;
  }
  on_message interactor (authenticated _) h = record {
    state = h;
    sent = [];
    thrown = some unhandled_message;
  }
  on_message interactor (forwarded_subscription _) h = record {
    state = h;
    sent = [];
    thrown = some unhandled_message;
  }
  on_message interactor (forwarded_multicast _) h = record {
    state = h;
    sent = [];
    thrown = some unhandled_message;
  }
  on_message interactor (forwarded_unicast _) h = record {
    state = h;
    sent = [];
    thrown = some unhandled_message;
  }

  unfoldable pub handle : Event → Hub → Done Hub
  handle (startup yaml) h = on_interrupt rx yaml h
  handle (interrupt yaml) h = on_interrupt rx yaml h
  handle (disconnected interactor) h = on_disconnected interactor h
  handle (message interactor m) h = on_message interactor m h

  -- A run of the server: an event that throws leaves the state it has reached, and the run goes on.
  unfoldable pub run : List Event → Hub → Hub × List Sent
  run [] h = (h, [])
  run (e ∷ es) h = let d = handle e h in let (h', sent) = run es d.state in (h', d.sent ++ sent)
