-- ===== src/Examples/Polling.antt =====
-- The poller with a client that counts its descriptors, and with the distributor.
use cpp_prototype.Common.{
  ℕ, suc, ◌≡◌, refl, Bool, true, false, List, [], ◌∷◌, none, length, ok, err, Error, IsException,
  accept_failed, arith,
}
use cpp_prototype.Common.Key.{ℕ_key, same_refl}
use cpp_prototype.Common.Map.{find}
use cpp_prototype.Common.Set.{Set, contains, insert, erase, contains-insert, contains-erase}
use cpp_prototype.Io.PollHandler.{listener}
use cpp_prototype.Io.Poller.{System, write_to, close_fd, PollClient, Poller, Interest, PollState}
use cpp_prototype.Io.Poller.Refusal.{IsRefused, refused-rounds}
use cpp_prototype.Io.Poller.EventLoop.{make_poll_fds, rounds, Round, event_loop}
use cpp_prototype.Io.Poller.Invariant.{IsTracking}
use cpp_prototype.Io.Poller.Rounds.{Setting}
use cpp_prototype.Io.Poller.Runs.{IsConsistent, Succeeds, Answers, event_loop-Succeeds}
use cpp_prototype.Server.Authentication.{AuthenticationManager}
use cpp_prototype.Server.Distributor.{Surroundings}
use cpp_prototype.Examples.Connections.{Pipe, os, os-Sends, os-Receives, fresh}
use cpp_prototype.Examples.World.{rx, peers}

-- Each `accept` gives out the next descriptor, with two bytes to read; a close succeeds.
abbrev sys : System Pipe ℕ
sys = record {
  accept =
      λ fd n. (ok (record { fd = n; bio = fresh (1 ∷ 2 ∷ []); host = b'h' ∷ []; port = n }), suc n);
  close = λ fd n. (true, n);
}

abbrev budget : Pipe → ℕ
budget w = suc (length w.inbox)

abbrev knows : ℕ → Set ℕ → Bool
knows fd s = contains fd s

-- It sends back what it reads, and closes the descriptor.
abbrev echo : PollClient (Set ℕ)
echo = record {
  on_startup = λ s. record { client = s; requests = []; thrown = none };
  on_interrupt = λ s. record { client = s; requests = []; thrown = none };
  on_open = λ fd host port s. record { client = insert fd s; requests = []; thrown = none };
  on_close = λ fd s. record { client = erase fd s; requests = []; thrown = none };
  on_read = λ fd bufs s. record {
    client = s;
    requests = write_to fd (b'!' ∷ []) ∷ close_fd fd ∷ [];
    thrown = none;
  };
  on_error = λ fd s. record { client = s; requests = []; thrown = none };
}

echo-IsTracking : IsTracking echo knows IsException
echo-IsTracking = record {
  on_startup = λ k s. refl;
  on_interrupt = λ k s. refl;
  on_open = λ k fd host port s. contains-insert k fd s;
  on_close = λ k fd s. contains-erase k fd s;
  on_read = λ k fd bufs s. refl;
  on_error = λ k fd s. refl;
  exceptions = λ e x. x;
  startup_throws = λ s e x. absurd cc;
  interrupt_throws = λ s e x. absurd cc;
  open_throws = λ fd host port s e x. absurd cc;
  close_throws = λ fd s e x. absurd cc;
  read_throws = λ fd bufs s e x. absurd cc;
  error_throws = λ fd s e x. absurd cc;
}

setting : (Allowed : Error → Type 0) → Setting os sys budget Allowed
setting Allowed = record {
  sent = λ (w : Pipe). w.outbox;
  sends = os-Sends;
  unread = λ (w : Pipe). w.inbox;
  receives = os-Receives;
  enough = λ w. omega arith;
  accept_throws = λ fd n e x. absurd cc;
}

-- `poll` finds the first descriptor that it is asked about ready to be read.
abbrev first_ready : List Interest → List PollState
first_ready [] = []
first_ready (i ∷ is) = record { fd = i.fd; is_active = true; is_in = true; is_out = true } ∷ []

abbrev round : Round
round = record { is_signalled = true; poll = λ is. ok (1, first_ready is) }

first_ready-Answers :
    (Allowed : Error → Type 0) (is : List Interest) → Answers Allowed is (ok (1, first_ready is))
unfolding contains
first_ready-Answers Allowed [] = tt
first_ready-Answers Allowed (i ∷ is) = (ground (arith, same_refl i.fd), tt)

abbrev poller : Poller Pipe ℕ (Set ℕ)
poller = record {
  handlers = (3, listener (record { has_ssl_ctx = false; is_open = true })) ∷ [];
  client = [];
  system = 4;
}

poller-IsConsistent :
    IsConsistent os sys echo budget knows IsException echo-IsTracking (setting IsException) poller
unfolding find contains
poller-IsConsistent = record { holds = λ k. ground arith; ordered = (tt, tt) }

event_loop-Succeeds_example :
    Succeeds os sys echo budget knows IsException echo-IsTracking
      (setting IsException)
      (event_loop os sys echo budget (round ∷ round ∷ []) poller)
event_loop-Succeeds_example =
    event_loop-Succeeds os sys echo budget knows IsException echo-IsTracking (setting IsException)
      (round ∷ round ∷ []) poller
      (first_ready-Answers IsException, (first_ready-Answers IsException, tt)) poller-IsConsistent

-- A listener that has been closed.
abbrev closed : Poller Pipe ℕ (Set ℕ)
closed = record poller {
  handlers = (3, listener (record { has_ssl_ctx = false; is_open = false })) ∷ [];
}

abbrev surroundings : Surroundings
surroundings = record {
  rx = rx;
  yaml = λ path. ok [];
  files = λ path. none;
  md5 = λ text. text;
  ids = λ n. n ∷ [];
  unspecified = peers;
}

abbrev open_to_all : AuthenticationManager
open_to_all = record { entries = []; password_file = none }

-- No more descriptors are to be had.
abbrev full : System Pipe ℕ
full = record { accept = λ fd n. (err accept_failed, n); close = λ fd n. (true, n) }

abbrev quiet_round : Round
quiet_round = record { is_signalled = false; poll = λ is. ok (1, first_ready is) }

refusal : IsRefused os full poller quiet_round accept_failed
unfolding make_poll_fds find
refusal = record {
  quiet = refl;
  count = 1;
  st = record { fd = 3; is_active = true; is_in = true; is_out = true };
  sts = [];
  polled = refl;
  is_active = refl;
  is_in = refl;
  l = record { has_ssl_ctx = false; is_open = true };
  found = refl;
  refused = refl;
}

refused-rounds_example :
    rounds os full echo budget (quiet_round ∷ round ∷ []) poller ≡ (err accept_failed, poller)
refused-rounds_example =
    refused-rounds os full echo budget quiet_round (round ∷ []) poller accept_failed refusal
