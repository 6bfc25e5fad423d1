-- ===== src/Server/Session.antt =====
-- `process_message` and `authenticate` of src/server/interactor.cpp: what an interactor does with a
-- message before and after its user is known.
pub mod Isolation
use cpp_prototype.Common.{
  Bool, true, false, ◌||◌, List, [], ◌∷◌, ◌++◌, Bytes, Option, none, some, Error, undefined,
  Outcome, ok, err,
}
use cpp_prototype.Messages.Message.{
  AuthenticationRequest, Message, authentication, authenticated, multicast, unicast,
  forwarded_subscription, notification, subscription, forwarded_multicast, forwarded_unicast,
}
use cpp_prototype.Server.Effects.{Address, Peer, Sent, Regex}
use cpp_prototype.Server.Hub.{Hub, on_message}

-- What the interactor asks of the authentication manager: the user, nobody, or an exception.
pub record Authenticator : Type 0 where
  pub authenticate : AuthenticationRequest → Outcome (Option Bytes)

-- The interactor's user and the hub after a message, the messages sent, whether the poller was told
-- to close the interactor's descriptor, and the exception or undefined behaviour met.
pub record Processed : Type 0 where
  pub user : Option Bytes
  pub hub : Hub
  pub sent : List Sent
  pub is_closed : Bool
  pub thrown : Option Error

-- The reply that `authenticate` ends with, whatever it has found.
abbrev pub reply : Address → Sent
reply interactor = record {
  receiver = interactor;
  message = authenticated (record { is_authenticated = true });
}

-- A message that is no AuthenticationRequest closes the descriptor, and goes on to dereference the
-- null pointer that the cast gives.
abbrev pub not_a_request : Hub → Processed
not_a_request h = record {
  user = none;
  hub = h;
  sent = [];
  is_closed = true;
  thrown = some undefined;
}

-- One message and those after it, which are not looked at after an exception.
abbrev pub unless : Option Error → Processed → Processed → Processed
unless (some e) p rest = p
unless none p rest = record rest {
  sent = p.sent ++ rest.sent;
  is_closed = p.is_closed || rest.is_closed;
}

module _ (auth : Authenticator) (interactor : Address) where
  -- The rest of `authenticate`, with what the manager has answered.
  unfoldable pub answered : Outcome (Option Bytes) → Hub → Processed
  answered (err e) h = record {
    user = none;
    hub = h;
    sent = [];
    is_closed = false;
    thrown = some e;
  }
  answered (ok none) h = record {
    user = none;
    hub = h;
    sent = reply interactor ∷ [];
    is_closed = true;
    thrown = none;
  }
  answered (ok (some user)) h = record {
    user = some user;
    hub = h;
    sent = reply interactor ∷ [];
    is_closed = false;
    thrown = none;
  }

  unfoldable pub authenticate : Message → Hub → Processed
  unfolding answered
  authenticate (authentication request) h = answered (auth.authenticate request) h
  authenticate (authenticated _) h = not_a_request h
  authenticate (multicast _) h = not_a_request h
  authenticate (unicast _) h = not_a_request h
  authenticate (forwarded_subscription _) h = not_a_request h
  authenticate (notification _) h = not_a_request h
  authenticate (subscription _) h = not_a_request h
  authenticate (forwarded_multicast _) h = not_a_request h
  authenticate (forwarded_unicast _) h = not_a_request h

  unfoldable pub process_message :
      Regex → (Address → Peer) → Message → Option Bytes → Hub → Processed
  process_message rx peers m none h = authenticate m h
  process_message rx peers m (some user) h =
      let d = on_message rx peers interactor m h in
      record {
        user = some user;
        hub = d.state;
        sent = d.sent;
        is_closed = false;
        thrown = d.thrown;
      }

  -- The messages of one interactor, in order. An exception leaves the loop of `receive`.
  unfoldable pub process_all :
      Regex → (Address → Peer) → List Message → Option Bytes → Hub → Processed
  process_all rx peers [] user h = record {
    user = user;
    hub = h;
    sent = [];
    is_closed = false;
    thrown = none;
  }
  process_all rx peers (m ∷ ms) user h =
      let p = process_message rx peers m user h in
      let rest = process_all rx peers ms p.user p.hub in unless p.thrown p rest
