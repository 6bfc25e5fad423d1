-- ===== src/Io/PollHandler.antt =====
-- src/io/poll_handler.hpp and tcp_listener_poll_handler.hpp: what the poller holds for a descriptor.
use cpp_prototype.Common.{
  ℕ, zero, suc, Bool, true, false, if◌then◌else◌, List, [], ◌∷◌, Bytes, none, some, Outcome, ok,
  err, out_of_fuel, close_failed,
}
use cpp_prototype.Common.Map.{Map}
use cpp_prototype.Io.Ssl.{Openssl}
use cpp_prototype.Io.TcpSocketPollHandler
use cpp_prototype.Io.TcpSocketPollHandler.{TcpSocketPollHandler}

-- `TcpListenerPollHandler`: whether its clients come under TLS, and the flag of its socket.
pub record TcpListenerPollHandler : Type 0 where
  pub has_ssl_ctx : Bool
  pub is_open : Bool

-- The two kinds of `PollHandler` of the server.
pub data PollHandler (W : Type 0) : Type 0 where
  listener : TcpListenerPollHandler → PollHandler W
  connection : TcpSocketPollHandler W → PollHandler W

module _ {W : Type 0} where
  abbrev pub is_listener : PollHandler W → Bool
  is_listener (listener _) = true
  is_listener (connection _) = false

  abbrev pub is_open : PollHandler W → Bool
  is_open (listener l) = l.is_open
  is_open (connection h) = h.stream.is_open

  abbrev pub want_read : Openssl W → PollHandler W → Bool
  want_read os (listener _) = true
  want_read os (connection h) = TcpSocketPollHandler.want_read os h

  abbrev pub want_write : Openssl W → PollHandler W → Bool
  want_write os (listener _) = false
  want_write os (connection h) = TcpSocketPollHandler.want_write os h

  abbrev pub enqueue : Bytes → PollHandler W → PollHandler W
  enqueue buf (listener l) = listener l
  enqueue buf (connection h) = connection (TcpSocketPollHandler.enqueue buf h)

  abbrev close_listener : Bool → TcpListenerPollHandler → Outcome Bool × PollHandler W
  close_listener closes l =
      if l.is_open
      then if closes
        then (ok true, listener (record l { is_open = false }))
        else (err close_failed, listener l)
      else (ok true, listener l)

  -- `close`, where `::close` succeeds or not.
  unfoldable pub close : Bool → PollHandler W → Outcome Bool × PollHandler W
  close closes (listener l) = close_listener closes l
  close closes (connection h) =
      let (o, h') = TcpSocketPollHandler.close closes h in (o, connection h')

  -- The handlers that are not open, in the order of their descriptors.
  unfoldable pub closed_fds : Map ℕ (PollHandler W) → List ℕ
  closed_fds [] = []
  closed_fds ((fd, h) ∷ m) = let rest = closed_fds m in if is_open h then rest else fd ∷ rest

  abbrev pub and_buf :
      Bytes
      → Outcome (List Bytes) × TcpSocketPollHandler W
      → Outcome (List Bytes) × TcpSocketPollHandler W
  and_buf buf (ok bufs, h) = (ok (buf ∷ bufs), h)
  and_buf buf (err e, h) = (err e, h)

  -- The loop of `handle_read`: `dequeue` until it gives nothing.
  unfoldable pub dequeue_all :
      ℕ → TcpSocketPollHandler W → Outcome (List Bytes) × TcpSocketPollHandler W
  dequeue_all zero h = (err out_of_fuel, h)
  dequeue_all (suc fuel) h = elim ((TcpSocketPollHandler.dequeue h).0) [
    | none ↦ (ok [], (TcpSocketPollHandler.dequeue h).1)
    | some buf ↦ and_buf buf (dequeue_all fuel (TcpSocketPollHandler.dequeue h).1)
  ]
