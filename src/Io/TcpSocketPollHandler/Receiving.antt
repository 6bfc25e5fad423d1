-- ===== src/Io/TcpSocketPollHandler/Receiving.antt =====
-- The read queue of a handler: what a connection gives out is queued, in order, once.
use cpp_prototype.Common.{
  ℕ, zero, suc, ◌<◌, ◌≡◌, refl, sym, ap, ◌∙◌, Bool, if_intro, [], ◌∷◌, ◌++◌, append_assoc,
  append-nil, Bytes, length, concat, length-append, concat-append, Outcome, ok, err, Error,
  IsException, err-IsException, arith,
}
use cpp_prototype.Io.Ssl.{Openssl, Transfer, transferred, eof, blocked}
use cpp_prototype.Io.TcpStream
use cpp_prototype.Io.TcpStream.{TcpStream}
use cpp_prototype.Io.Transport.Reading.{Receives, WasRead, read-WasRead}
use cpp_prototype.Io.TcpSocketPollHandler.{
  TcpSocketPollHandler, Result, is_open, after_read, read_loop, read_caught, read,
}

module _ {W : Type 0} (os : Openssl W) (unread : W → Bytes) (receives : Receives os unread) where
  -- What is queued, and then what the connection has still to give out.
  abbrev pub input : TcpSocketPollHandler W → Bytes
  input h = concat h.read_queue ++ unread h.stream.bio

  pub record IsReceived (h : TcpSocketPollHandler W) (r : Result W Bool) : Type 0 where
    pub same_input : input r.1 ≡ input h
    pub same_writes : r.1.write_queue ≡ h.write_queue
    pub throws : (e : Error) → r.0 ≡ err e → IsException e

  -- The loop ends where nothing has been read.
  unread-IsReceived :
      (o : Outcome Bool) (h : TcpSocketPollHandler W) (s : TcpStream W)
      → unread h.stream.bio ≡ unread s.bio
      → ((e : Error) → o ≡ err e → IsException e)
      → IsReceived h (o, record h { stream = s })
  unread-IsReceived o h s e t = record {
    same_input = ap (λ x. concat h.read_queue ++ x) (sym e);
    same_writes = refl;
    throws = t;
  }

  -- A loop that behaves on all handlers whose connection has less than `k` bytes to give out.
  abbrev Behaves : ℕ → (TcpSocketPollHandler W → Result W Bool) → Type 0
  Behaves k loop =
      (h : TcpSocketPollHandler W) → length (unread h.stream.bio) < k → IsReceived h (loop h)

  module _ (fuel : ℕ) (loop : TcpSocketPollHandler W → Result W Bool) (ih : Behaves fuel loop) where
    after_read-IsReceived :
        (h : TcpSocketPollHandler W) (r : TcpStream.Result W (Transfer Bytes))
        → length (unread h.stream.bio) < suc fuel
        → WasRead os unread receives h.stream r
        → IsReceived h (after_read loop h r)
    unfolding after_read
    after_read-IsReceived h (err e, s) f w =
        unread-IsReceived _ h s w.unread_before (λ x k. err-IsException k (w.throws e refl))
    after_read-IsReceived h (ok eof, s) f w = unread-IsReceived _ h s w.unread_before (λ x k. cc)
    after_read-IsReceived h (ok blocked, s) f w =
        unread-IsReceived _ h s w.unread_before (λ x k. cc)
    after_read-IsReceived h (ok (transferred buf), s) f w =
        let less : length (unread s.bio) < fuel = omega (
          arith,
          ap length w.unread_before,
          length-append buf (unread s.bio),
          w.not_empty buf refl,
          f,
        ) in
        let c = ih (record h { stream = s; read_queue = h.read_queue ++ buf ∷ [] }) less in
        let queued : concat (h.read_queue ++ buf ∷ []) ≡ concat h.read_queue ++ buf =
          concat-append h.read_queue (buf ∷ [])
          ∙ ap (λ x. concat h.read_queue ++ x) (append-nil buf) in
        record {
          same_input =
              c.same_input
              ∙ ap (λ x. x ++ unread s.bio) queued
              ∙ append_assoc (concat h.read_queue) buf (unread s.bio)
              ∙ ap (λ x. concat h.read_queue ++ x) (sym w.unread_before);
          same_writes = c.same_writes;
          throws = c.throws;
        }

  read_loop-IsReceived : (fuel : ℕ) → Behaves fuel (read_loop os fuel)
  unfolding read_loop
  read_loop-IsReceived zero h f = absurd (omega arith)
  read_loop-IsReceived (suc fuel) h f =
      if_intro (IsReceived h) (is_open h) _ _
        (after_read-IsReceived fuel (read_loop os fuel) (read_loop-IsReceived fuel) h _ f
          (read-WasRead os unread receives h.read_bufsiz h.stream))
        (unread-IsReceived _ h h.stream refl (λ e k. cc))

  -- An exception is caught, so that `read` returns.
  read_caught-ok :
      (h : TcpSocketPollHandler W) (r : Result W Bool)
      → IsReceived h r
      → let (o, k) = read_caught r in
        (o ≡ ok (is_open k)) × (input k ≡ input h) × (k.write_queue ≡ h.write_queue)
  read_caught-ok h (ok b, k) c = (refl, c.same_input, c.same_writes)
  read_caught-ok h (err e, k) c = ground (arith, c.same_input, c.same_writes, c.throws e refl)

  -- With fuel above the number of bytes that the connection has to give out, `read` ends and
  -- throws nothing, it returns whether the socket is open, what is queued and then what is still
  -- to come is as before, byte for byte, and the write queue has not changed.
  pub read-IsReceived :
      (fuel : ℕ) (h : TcpSocketPollHandler W)
      → length (unread h.stream.bio) < fuel
      → let (o, k) = read os fuel h in
        (o ≡ ok (is_open k)) × (input k ≡ input h) × (k.write_queue ≡ h.write_queue)
  unfolding read
  read-IsReceived fuel h f = read_caught-ok h (read_loop os fuel h) (read_loop-IsReceived fuel h f)
