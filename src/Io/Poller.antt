-- ===== src/Io/Poller.antt =====
-- src/io/poller.hpp: the handlers by file descriptor, and the rounds of the event loop. The client is
-- an interface, as in the source.
pub mod Invariant
pub mod Refusal
pub mod Removal
pub mod Runs
pub mod Requests
pub mod Rounds
pub mod Callbacks
pub mod EventLoop
use cpp_prototype.Common.{
  ℕ, zero, suc, ◌+◌, ◌-◌, Bool, true, false, not, ◌&&◌, ◌||◌, ◌==◌, if◌then◌else◌, List, [], ◌∷◌,
  ◌++◌, Bytes, Option, none, some, length, Outcome, ok, err, Error, undefined, out_of_fuel,
  terminated,
}
use cpp_prototype.Common.Key.{ℕ_key}
use cpp_prototype.Common.Map.{Map, find, put, erase}
use cpp_prototype.Io.Ssl.{Openssl}
use cpp_prototype.Io.TcpStream.{make_plain, make_ssl}
use cpp_prototype.Io.TcpSocketPollHandler
use cpp_prototype.Io.TcpSocketPollHandler.{TcpSocketPollHandler}
use cpp_prototype.Io.TcpSocketPollHandler.Pending.{pending}
use cpp_prototype.Io.PollHandler
use cpp_prototype.Io.PollHandler.{
  PollHandler, listener, connection, TcpListenerPollHandler, is_listener, closed_fds, dequeue_all,
}

-- A socket that `accept` has given out, not blocking.
pub record Accepted (W : Type 0) : Type 0 where
  pub fd : ℕ
  pub bio : W
  pub host : Bytes
  pub port : ℕ

-- The calls of the system: `accept` of a listener's descriptor with what follows it up to
-- `blocking(false)`, and whether `::close` succeeds.
pub record System (W N : Type 0) : Type 0 where
  pub accept : ℕ → N → Outcome (Accepted W) × N
  pub close : ℕ → N → Bool × N

-- What a client may ask of the poller in a callback.
pub data Request : Type 0 where
  write_to : ℕ → Bytes → Request
  close_fd : ℕ → Request

-- A callback's client after it, the calls of the poller in order, and the exception, if any.
pub record Reply (C : Type 0) : Type 0 where
  pub client : C
  pub requests : List Request
  pub thrown : Option Error

pub record PollClient (C : Type 0) : Type 0 where
  pub on_startup : C → Reply C
  pub on_interrupt : C → Reply C
  pub on_open : ℕ → Bytes → ℕ → C → Reply C
  pub on_close : ℕ → C → Reply C
  pub on_read : ℕ → List Bytes → C → Reply C
  pub on_error : ℕ → C → Reply C

pub record Poller (W N C : Type 0) : Type 0 where
  pub handlers : Map ℕ (PollHandler W)
  pub client : C
  pub system : N

-- A `pollfd` before the call of `poll`: whether its `events` have POLLIN and POLLOUT.
pub record Interest : Type 0 where
  pub fd : ℕ
  pub wants_in : Bool
  pub wants_out : Bool

-- A `pollfd` after it: whether `revents` is not 0, and has POLLIN and POLLOUT.
pub record PollState : Type 0 where
  pub fd : ℕ
  pub is_active : Bool
  pub is_in : Bool
  pub is_out : Bool

-- What a call returns or throws, and the poller after it.
abbrev pub Result {ℓ} : Type 0 → Type 0 → Type 0 → Type ℓ → Type ℓ
Result W N C A = Outcome A × Poller W N C

module _ {W N C : Type 0} where
  abbrev pub and_then {ℓ κ} :
      {A : Type ℓ} {B : Type κ}
      → Result W N C A
      → (A → Poller W N C → Result W N C B)
      → Result W N C B
  and_then (ok a, p) f = f a p
  and_then (err e, p) f = (err e, p)

  -- An exception ends the program where it would leave a function that is noexcept.
  abbrev pub noexcept : Result W N C Bool → Result W N C Bool
  noexcept (ok a, p) = (ok a, p)
  noexcept (err undefined, p) = (err undefined, p)
  noexcept (err out_of_fuel, p) = (err out_of_fuel, p)
  noexcept (err e, p) = (err terminated, p)

  -- `handler` is a reference into the table.
  abbrev pub set_handler : ℕ → PollHandler W → Poller W N C → Poller W N C
  set_handler fd h p = record p { handlers = put fd h p.handlers }

  unfoldable pub write : ℕ → Bytes → Poller W N C → Poller W N C
  write fd buf p = elim (find fd p.handlers) [
    | none ↦ p
    | some h ↦ set_handler fd (PollHandler.enqueue buf h) p
  ]

  abbrev pub thrown_or_true : Option Error → Poller W N C → Result W N C Bool
  thrown_or_true none p = (ok true, p)
  thrown_or_true (some e) p = (err e, p)

  unfoldable pub find_closed_handler_fds : Poller W N C → List ℕ
  find_closed_handler_fds p = closed_fds p.handlers

module _ {W N C : Type 0} (sys : System W N) where
  unfoldable pub close : ℕ → Poller W N C → Result W N C Bool
  close fd p = elim (find fd p.handlers) [
    | none ↦ (ok true, p)
    | some h ↦
        let (closes, n) = sys.close fd p.system in
        let (o, h') = PollHandler.close closes h in
        let q = record p { system = if PollHandler.is_open h then n else p.system } in
        noexcept (o, set_handler fd h' q)
  ]

  -- The calls that a callback makes of the poller.
  unfoldable pub perform : List Request → Poller W N C → Result W N C Bool
  perform [] p = (ok true, p)
  perform (write_to fd buf ∷ rs) p = perform rs (write fd buf p)
  perform (close_fd fd ∷ rs) p = and_then (close fd p) λ _. perform rs

  -- A callback: its calls, and then its exception.
  unfoldable pub answer : Reply C → Poller W N C → Result W N C Bool
  answer r p =
      and_then (perform r.requests (record p { client = r.client })) λ _. thrown_or_true r.thrown

module _ {W N C : Type 0} (sys : System W N) (client : PollClient C) where
  unfoldable pub add_handler : ℕ → PollHandler W → Bytes → ℕ → Poller W N C → Result W N C Bool
  add_handler fd h host port p =
      let q = set_handler fd h p in
      if is_listener h
      then (ok true, q)
      else noexcept (answer sys (client.on_open fd host port q.client) q)

  -- `TcpListenerPollHandler::read`, after `accept`
  abbrev pub accepted :
      TcpListenerPollHandler → Outcome (Accepted W) → Poller W N C → Result W N C Bool
  accepted l (err e) p = (err e, p)
  accepted l (ok a) p =
      let stream = if l.has_ssl_ctx then make_ssl a.bio false else make_plain a.bio false in
      add_handler a.fd (connection (TcpSocketPollHandler.make stream 8096 8096)) a.host a.port p

  unfoldable pub read_listener : ℕ → TcpListenerPollHandler → Poller W N C → Result W N C Bool
  read_listener fd l p =
      let (o, n) = sys.accept fd p.system in accepted l o (record p { system = n })

  -- The `catch` of `handle_read` and `handle_write`.
  abbrev pub caught : ℕ → Result W N C Bool → Result W N C Bool
  caught fd (ok b, p) = (ok b, p)
  caught fd (err undefined, p) = (err undefined, p)
  caught fd (err out_of_fuel, p) = (err out_of_fuel, p)
  caught fd (err terminated, p) = (err terminated, p)
  caught fd (err e, p) =
      and_then (noexcept (answer sys (client.on_error fd p.client) p)) λ _ q. (ok false, q)

  -- `on_read` of the buffers, if there are any; then what `handler->read` has returned.
  abbrev pub tell_read : Bool → ℕ → List Bytes → Poller W N C → Result W N C Bool
  tell_read can_continue fd [] p = (ok can_continue, p)
  tell_read can_continue fd (buf ∷ bufs) p =
      and_then (answer sys (client.on_read fd (buf ∷ bufs) p.client) p) λ _ q. (ok can_continue, q)

  abbrev pub after_dequeue :
      Bool → ℕ → Outcome (List Bytes) × TcpSocketPollHandler W → Poller W N C → Result W N C Bool
  after_dequeue can_continue fd (ok bufs, h) p =
      tell_read can_continue fd bufs (set_handler fd (connection h) p)
  after_dequeue can_continue fd (err e, h) p = (err e, set_handler fd (connection h) p)

  abbrev pub after_read : ℕ → TcpSocketPollHandler.Result W Bool → Poller W N C → Result W N C Bool
  after_read fd (err e, h) p = (err e, set_handler fd (connection h) p)
  after_read fd (ok can_continue, h) p =
      after_dequeue can_continue fd (dequeue_all (suc (length h.read_queue)) h) p
