-- ===== src/Io/FilePollHandler.antt =====
-- src/io/file_poll_handler.hpp: the queues between the poller and a file.
pub mod Writing
use cpp_prototype.Common.{
  ℕ, zero, suc, ◌-◌, min, Bool, true, false, not, ◌&&◌, ltb, if◌then◌else◌, List, [], ◌∷◌, ◌++◌,
  Bytes, Option, none, some, length, take, drop, Outcome, ok, err, undefined, out_of_fuel,
  terminated, close_failed,
}
use cpp_prototype.Io.Ssl.{Transfer, transferred, eof, blocked}
use cpp_prototype.Io.FileStream
use cpp_prototype.Io.FileStream.{FileStream, FileCalls, closed, can_read, can_write}
use cpp_prototype.Io.TcpSocketPollHandler.{Pending, advance}

pub record FilePollHandler (W : Type 0) : Type 0 where
  pub stream : FileStream W
  pub read_queue : List Bytes
  pub write_queue : List Pending
  pub read_bufsiz : ℕ
  pub write_bufsiz : ℕ

-- The constructor.
abbrev pub make : {W : Type 0} → FileStream W → ℕ → ℕ → FilePollHandler W
make stream read_bufsiz write_bufsiz = record {
  stream = stream;
  read_queue = [];
  write_queue = [];
  read_bufsiz = read_bufsiz;
  write_bufsiz = write_bufsiz;
}

-- What a call returns or throws, and the handler after it.
abbrev pub Result {ℓ} : Type 0 → Type ℓ → Type ℓ
Result W A = Outcome A × FilePollHandler W

abbrev is_empty {ℓ} : {A : Type ℓ} → List A → Bool
is_empty [] = true
is_empty (_ ∷ _) = false

module _ {W : Type 0} where
  abbrev pub is_open : FilePollHandler W → Bool
  is_open h = h.stream.is_open

  abbrev pub set_closed : FilePollHandler W → FilePollHandler W
  set_closed h = record h { stream = closed h.stream }

  unfoldable pub want_read : FilePollHandler W → Bool
  want_read h = can_read h.stream

  unfoldable pub want_write : FilePollHandler W → Bool
  want_write h = can_write h.stream && not (is_empty h.write_queue)

  unfoldable pub has_reads : FilePollHandler W → Bool
  has_reads h = not (is_empty h.read_queue)

  unfoldable pub dequeue : FilePollHandler W → Option Bytes × FilePollHandler W
  dequeue h = elim (h.read_queue) [
    | [] ↦ (none, h)
    | buf ∷ bufs ↦ (some buf, record h { read_queue = bufs })
  ]

  unfoldable pub enqueue : Bytes → FilePollHandler W → FilePollHandler W
  enqueue buf h = record h { write_queue = h.write_queue ++ (buf, 0) ∷ [] }

  -- `close`, where `::close` succeeds or not.
  unfoldable pub close : Bool → FilePollHandler W → Result W Bool
  close closes h =
      if is_open h
      then if closes then (ok true, set_closed h) else (err close_failed, h)
      else (ok true, h)

  -- The cases of `std::visit` in the loop of `read`, with the rest of the loop.
  unfoldable pub after_read :
      (FilePollHandler W → Result W Bool)
      → FilePollHandler W
      → FileStream.Result W (Transfer Bytes)
      → Result W Bool
  after_read loop h (err e, s) = (err e, record h { stream = s })
  after_read loop h (ok eof, s) = (ok true, record h { stream = s })
  after_read loop h (ok blocked, s) = (ok true, record h { stream = s })
  after_read loop h (ok (transferred buf), s) =
      loop (record h { stream = s; read_queue = h.read_queue ++ buf ∷ [] })

  -- The cases of `std::visit` in the loop of `write`, with the rest of the loop.
  unfoldable pub after_write :
      (FilePollHandler W → Result W Bool)
      → Bytes
      → ℕ
      → List Pending
      → FilePollHandler W
      → FileStream.Result W (Transfer ℕ)
      → Result W Bool
  after_write loop buf offset rest h (err e, s) = (err e, record h { stream = s })
  after_write loop buf offset rest h (ok eof, s) = (ok true, record h { stream = s })
  after_write loop buf offset rest h (ok blocked, s) = (ok true, record h { stream = s })
  after_write loop buf offset rest h (ok (transferred n), s) =
      loop (record h { stream = s; write_queue = advance n buf offset rest })

  -- An exception closes the file, and is thrown on.
  abbrev pub read_thrown : Result W Bool → Result W Bool
  read_thrown (ok _, h) = (ok (is_open h), h)
  read_thrown (err e, h) = (err e, set_closed h)

  -- `write` is noexcept: the exception that is thrown on ends the program.
  abbrev pub write_thrown : Result W Bool → Result W Bool
  write_thrown (ok _, h) = (ok (is_open h), h)
  write_thrown (err undefined, h) = (err undefined, h)
  write_thrown (err out_of_fuel, h) = (err out_of_fuel, h)
  write_thrown (err e, h) = (err terminated, set_closed h)

module _ {W : Type 0} (calls : FileCalls W) where
  -- The loop of `read`, until the file is blocked, ended or closed.
  unfoldable pub read_loop : ℕ → FilePollHandler W → Result W Bool
  read_loop zero h = (err out_of_fuel, h)
  read_loop (suc fuel) h =
      let read_on = after_read (read_loop fuel) h (FileStream.read calls h.read_bufsiz h.stream) in
      if is_open h then read_on else (ok true, h)

  unfoldable pub read : ℕ → FilePollHandler W → Result W Bool
  read fuel h = read_thrown (read_loop fuel h)

  -- The loop of `write`. A `subspan` that begins behind the end is undefined.
  unfoldable pub write_loop : ℕ → FilePollHandler W → Result W Bool
  write_loop zero h = (err out_of_fuel, h)
  write_loop (suc fuel) h = elim (h.write_queue) [
    | [] ↦ (ok true, h)
    | (buf, offset) ∷ rest ↦
        let count = min (length buf - offset) h.write_bufsiz in
        let written = FileStream.write calls (take count (drop offset buf)) h.stream in
        let write_on = after_write (write_loop fuel) buf offset rest h written in
        if not (is_open h)
        then (ok true, h)
        else if ltb (length buf) offset
        then (err undefined, h)
        else write_on
  ]

  unfoldable pub write : ℕ → FilePollHandler W → Result W Bool
  write fuel h = write_thrown (write_loop fuel h)
