-- ===== src/Io/TcpSocketPollHandler.antt =====
-- src/io/tcp_socket_poll_handler.hpp: the queues between the poller and a stream.
pub mod Draining
pub mod History
pub mod Pending
pub mod Receiving
pub mod Sending
use cpp_prototype.Common.{
  ℕ, zero, suc, ◌+◌, ◌-◌, min, Bool, true, false, not, ◌&&◌, ◌||◌, ◌==◌, ltb, if◌then◌else◌, List,
  [], ◌∷◌, ◌++◌, Bytes, Option, none, some, length, take, drop, Outcome, ok, err, undefined,
  out_of_fuel, close_failed,
}
use cpp_prototype.Io.Ssl.{Openssl, Transfer, transferred, eof, blocked}
use cpp_prototype.Io.TcpStream
use cpp_prototype.Io.TcpStream.{TcpStream}

-- A buffer to write, and how much of it has been written.
abbrev pub Pending : Type 0
Pending = Bytes × ℕ

pub record TcpSocketPollHandler (W : Type 0) : Type 0 where
  pub stream : TcpStream W
  pub read_queue : List Bytes
  pub write_queue : List Pending
  pub read_bufsiz : ℕ
  pub write_bufsiz : ℕ

-- The constructors, on a stream that they have made.
abbrev pub make : {W : Type 0} → TcpStream W → ℕ → ℕ → TcpSocketPollHandler W
make stream read_bufsiz write_bufsiz = record {
  stream = stream;
  read_queue = [];
  write_queue = [];
  read_bufsiz = read_bufsiz;
  write_bufsiz = write_bufsiz;
}

-- What a call returns or throws, and the handler after it.
abbrev pub Result {ℓ} : Type 0 → Type ℓ → Type ℓ
Result W A = Outcome A × TcpSocketPollHandler W

-- The queue after `n` more bytes of its first buffer have been written.
unfoldable pub advance : ℕ → Bytes → ℕ → List Pending → List Pending
advance n buf offset rest = if offset + n == length buf then rest else (buf, offset + n) ∷ rest

abbrev is_empty {ℓ} : {A : Type ℓ} → List A → Bool
is_empty [] = true
is_empty (_ ∷ _) = false

module _ {W : Type 0} where
  abbrev pub is_open : TcpSocketPollHandler W → Bool
  is_open h = h.stream.is_open

  -- `stream_.socket->is_open(false)`
  abbrev pub set_closed : TcpSocketPollHandler W → TcpSocketPollHandler W
  set_closed h = record h { stream = record (h.stream) { is_open = false } }

  unfoldable pub has_reads : TcpSocketPollHandler W → Bool
  has_reads h = not (is_empty h.read_queue)

  unfoldable pub dequeue : TcpSocketPollHandler W → Option Bytes × TcpSocketPollHandler W
  dequeue h = elim (h.read_queue) [
    | [] ↦ (none, h)
    | buf ∷ bufs ↦ (some buf, record h { read_queue = bufs })
  ]

  unfoldable pub enqueue : Bytes → TcpSocketPollHandler W → TcpSocketPollHandler W
  enqueue buf h = record h { write_queue = h.write_queue ++ (buf, 0) ∷ [] }

  -- The cases of `std::visit` in the loop of `read`, with the rest of the loop.
  unfoldable pub after_read :
      (TcpSocketPollHandler W → Result W Bool)
      → TcpSocketPollHandler W
      → TcpStream.Result W (Transfer Bytes)
      → Result W Bool
  after_read loop h (err e, s) = (err e, record h { stream = s })
  after_read loop h (ok eof, s) = (ok true, record h { stream = s })
  after_read loop h (ok blocked, s) = (ok true, record h { stream = s })
  after_read loop h (ok (transferred buf), s) =
      loop (record h { stream = s; read_queue = h.read_queue ++ buf ∷ [] })

  -- The cases of `std::visit` in the loop of `write`, with the rest of the loop.
  unfoldable pub after_write :
      (TcpSocketPollHandler W → Result W Bool)
      → Bytes
      → ℕ
      → List Pending
      → TcpSocketPollHandler W
      → TcpStream.Result W (Transfer ℕ)
      → Result W Bool
  after_write loop buf offset rest h (err e, s) = (err e, record h { stream = s })
  after_write loop buf offset rest h (ok eof, s) = (ok true, record h { stream = s })
  after_write loop buf offset rest h (ok blocked, s) = (ok true, record h { stream = s })
  after_write loop buf offset rest h (ok (transferred n), s) =
      loop (record h { stream = s; write_queue = advance n buf offset rest })

  -- What has been written after the loop of `write` is not looked at.
  abbrev pub after_pending :
      TcpSocketPollHandler W → TcpStream.Result W (Transfer ℕ) → Result W Bool
  after_pending h (err e, s) = (err e, record h { stream = s })
  after_pending h (ok _, s) = (ok true, record h { stream = s })

  -- An exception closes the stream, and is caught.
  abbrev pub read_caught : Result W Bool → Result W Bool
  read_caught (ok _, h) = (ok (is_open h), h)
  read_caught (err undefined, h) = (err undefined, h)
  read_caught (err out_of_fuel, h) = (err out_of_fuel, h)
  read_caught (err e, h) = (ok false, set_closed h)

  -- An exception closes the stream, and is thrown on.
  abbrev pub write_thrown : Result W Bool → Result W Bool
  write_thrown (ok _, h) = (ok (is_open h), h)
  write_thrown (err e, h) = (err e, set_closed h)

  -- `close`, where `::close` succeeds or not.
  unfoldable pub close : Bool → TcpSocketPollHandler W → Result W Bool
  close closes h =
      if is_open h
      then if closes then (ok true, set_closed h) else (err close_failed, h)
      else (ok true, h)

module _ {W : Type 0} (os : Openssl W) where
  unfoldable pub want_read : TcpSocketPollHandler W → Bool
  want_read h = is_open h || TcpStream.want_read os h.stream

  unfoldable pub want_write : TcpSocketPollHandler W → Bool
  want_write h = is_open h && (not (is_empty h.write_queue) || TcpStream.want_write os h.stream)

  -- The loop of `read`, until the stream is blocked, ended or closed.
  unfoldable pub read_loop : ℕ → TcpSocketPollHandler W → Result W Bool
  read_loop zero h = (err out_of_fuel, h)
  read_loop (suc fuel) h =
      let read_on = after_read (read_loop fuel) h (TcpStream.read os h.read_bufsiz h.stream) in
      if is_open h then read_on else (ok true, h)

  unfoldable pub read : ℕ → TcpSocketPollHandler W → Result W Bool
  read fuel h = read_caught (read_loop fuel h)

  -- The loop of `write`. A `subspan` that begins behind the end is undefined.
  unfoldable pub write_loop : ℕ → TcpSocketPollHandler W → Result W Bool
  write_loop zero h = (err out_of_fuel, h)
  write_loop (suc fuel) h = elim (h.write_queue) [
    | [] ↦ (ok true, h)
    | (buf, offset) ∷ rest ↦
        let count = min (length buf - offset) h.write_bufsiz in
        let written = TcpStream.write os (take count (drop offset buf)) h.stream in
        let write_on = after_write (write_loop fuel) buf offset rest h written in
        if not (is_open h)
        then (ok true, h)
        else if ltb (length buf) offset
        then (err undefined, h)
        else write_on
  ]

  -- After the loop: TLS may have something of its own to write.
  unfoldable pub write_pending : TcpSocketPollHandler W → Result W Bool
  write_pending h =
      let written = after_pending h (TcpStream.write os [] h.stream) in
      if is_open h && TcpStream.want_write os h.stream then written else (ok true, h)

  abbrev pub then_pending : Result W Bool → Result W Bool
  then_pending (ok _, h) = write_pending h
  then_pending (err e, h) = (err e, h)

  unfoldable pub write : ℕ → TcpSocketPollHandler W → Result W Bool
  write fuel h = write_thrown (then_pending (write_loop fuel h))
