-- ===== src/Io/TcpSocketPollHandler/Sending.antt =====
-- The write queue of a handler: what is enqueued is sent, in order, once.
use cpp_prototype.Common.{
  ℕ, zero, suc, ◌-◌, min, ◌≤◌, ◌<◌, ◌≡◌, ◌&&◌, inl, inr, refl, sym, ap, subst, ◌∙◌, Bool, true,
  false, Bool-cases, List, [], ◌∷◌, ◌++◌, append_assoc, append-nil, Bytes, length, take, drop,
  length-append, length-take, Outcome, ok, err, Error, IsException, err-IsException, arith,
}
use cpp_prototype.Io.Ssl.{Openssl, Transfer, transferred, eof, blocked}
use cpp_prototype.Io.TcpStream
use cpp_prototype.Io.TcpStream.{TcpStream}
use cpp_prototype.Io.TcpSocketPollHandler.Pending.{
  pending, InBounds, queue_cases, take-advance, advance-InBounds,
}
use cpp_prototype.Io.Transport.Writing.{Sends, Wrote, write-Wrote}
use cpp_prototype.Io.TcpSocketPollHandler.{
  Pending, TcpSocketPollHandler, Result, is_open, advance, after_write, write_loop, after_pending,
  after_pending, write_pending, then_pending, write_thrown, write,
}

module _ {W : Type 0} (os : Openssl W) (sent : W → Bytes) (sends : Sends os sent) where
  -- What has been sent, and then what is still to be written.
  abbrev pub output : TcpSocketPollHandler W → Bytes
  output h = sent h.stream.bio ++ pending h.write_queue

  -- No byte is lost, repeated or moved.
  pub record IsConserved (h : TcpSocketPollHandler W) (r : Result W Bool) : Type 0 where
    pub same_output : output r.1 ≡ output h
    pub in_bounds : InBounds r.1.write_queue
    pub throws : (e : Error) → r.0 ≡ err e → IsException e

  -- A loop that behaves on all handlers with less than `k` bytes to write.
  abbrev Behaves : ℕ → (TcpSocketPollHandler W → Result W Bool) → Type 0
  Behaves k loop =
      (h : TcpSocketPollHandler W)
      → InBounds h.write_queue
      → length (pending h.write_queue) < k
      → IsConserved h (loop h)

  -- The loop ends where nothing has been written.
  unwritten-IsConserved :
      (o : Outcome Bool) (h : TcpSocketPollHandler W) (s : TcpStream W)
      → InBounds h.write_queue
      → sent s.bio ≡ sent h.stream.bio ++ []
      → ((e : Error) → o ≡ err e → IsException e)
      → IsConserved h (o, record h { stream = s })
  unwritten-IsConserved o h s b e t = record {
    same_output = ap (λ x. x ++ pending h.write_queue) (e ∙ append-nil (sent h.stream.bio));
    in_bounds = b;
    throws = t;
  }

  module _ (fuel : ℕ) (loop : TcpSocketPollHandler W → Result W Bool) (ih : Behaves fuel loop) where
    written-IsConserved :
        (n count : ℕ) (buf : Bytes) (offset : ℕ) (rest : List Pending) (h : TcpSocketPollHandler W)
        (s : TcpStream W)
        → h.write_queue ≡ (buf, offset) ∷ rest
        → InBounds ((buf, offset) ∷ rest)
        → length (pending ((buf, offset) ∷ rest)) < suc fuel
        → sent s.bio ≡ sent h.stream.bio ++ take n (take count (drop offset buf))
        → 0 < n
        → n ≤ length (take count (drop offset buf))
        → IsConserved h (loop (record h { stream = s; write_queue = advance n buf offset rest }))
    written-IsConserved n count buf offset rest h s q b f e p m =
        let chunk = take n (take count (drop offset buf)) in
        let left = pending (advance n buf offset rest) in
        let cut : chunk ++ left ≡ pending ((buf, offset) ∷ rest) =
          take-advance n count buf offset rest m in
        let size : length chunk ≡ n = omega (arith, length-take n (take count (drop offset buf))) in
        let less : length left < fuel =
          omega (arith, ap length cut, length-append chunk left, size, f, p) in
        let step =
          ih (record h { stream = s; write_queue = advance n buf offset rest })
            (advance-InBounds n count buf offset rest b m) less in
        record {
          same_output =
              step.same_output
              ∙ ap (λ x. x ++ left) e
              ∙ append_assoc (sent h.stream.bio) chunk left
              ∙ ap (λ x. sent h.stream.bio ++ x) (cut ∙ ap pending (sym q));
          in_bounds = step.in_bounds;
          throws = step.throws;
        }

    after_write-IsConserved :
        (count : ℕ) (buf : Bytes) (offset : ℕ) (rest : List Pending) (h : TcpSocketPollHandler W)
        (r : TcpStream.Result W (Transfer ℕ))
        → h.write_queue ≡ (buf, offset) ∷ rest
        → InBounds ((buf, offset) ∷ rest)
        → length (pending ((buf, offset) ∷ rest)) < suc fuel
        → Wrote os sent sends (take count (drop offset buf)) h.stream r
        → IsConserved h (after_write loop buf offset rest h r)
    unfolding after_write
    after_write-IsConserved count buf offset rest h (err e, s) q b f w =
        unwritten-IsConserved _ h s (subst InBounds (sym q) b) w.sent_more
          (λ x k. err-IsException k (w.throws e refl))
    after_write-IsConserved count buf offset rest h (ok eof, s) q b f w =
        unwritten-IsConserved _ h s (subst InBounds (sym q) b) w.sent_more (λ x k. cc)
    after_write-IsConserved count buf offset rest h (ok blocked, s) q b f w =
        unwritten-IsConserved _ h s (subst InBounds (sym q) b) w.sent_more (λ x k. cc)
    after_write-IsConserved count buf offset rest h (ok (transferred n), s) q b f w =
        written-IsConserved n count buf offset rest h s q b f w.sent_more (w.bounds n refl).0
          (w.bounds n refl).1

  -- One round of the loop, on a queue that is not empty.
  pub write_loop-cons :
      (fuel : ℕ) (buf : Bytes) (offset : ℕ) (rest : List Pending) (h : TcpSocketPollHandler W)
      → h.write_queue ≡ (buf, offset) ∷ rest
      → is_open h ≡ true
      → offset ≤ length buf
      → let chunk = take (min (length buf - offset) h.write_bufsiz) (drop offset buf) in
        write_loop os (suc fuel) h
        ≡ after_write (write_loop os fuel) buf offset rest h (TcpStream.write os chunk h.stream)
  unfolding write_loop
  write_loop-cons fuel buf offset rest h q o b = ground (arith, q)

  write_loop-closed :
      (fuel : ℕ) (h : TcpSocketPollHandler W)
      → is_open h ≡ false
      → write_loop os (suc fuel) h ≡ (ok true, h)
  unfolding write_loop
  write_loop-closed fuel h o = ground (arith, o)

  pub write_loop-nil :
      (fuel : ℕ) (h : TcpSocketPollHandler W)
      → h.write_queue ≡ []
      → write_loop os (suc fuel) h ≡ (ok true, h)
  unfolding write_loop
  write_loop-nil fuel h q = ground (arith, q)

  same-IsConserved :
      (o : Bool) (h : TcpSocketPollHandler W) → InBounds h.write_queue → IsConserved h (ok o, h)
  same-IsConserved o h b = record { same_output = refl; in_bounds = b; throws = λ e k. cc }

  write_loop-IsConserved : (fuel : ℕ) → Behaves fuel (write_loop os fuel)
  write_loop-IsConserved zero h b f = absurd (omega arith)
  write_loop-IsConserved (suc fuel) h b f = elim (queue_cases h.write_queue) [
    | inl q ↦ subst (IsConserved h) (sym (write_loop-nil fuel h q)) (same-IsConserved true h b)
    | inr ((buf, offset), rest, q) ↦ elim (Bool-cases (is_open h)) [
      | inr o ↦ subst (IsConserved h) (sym (write_loop-closed fuel h o)) (same-IsConserved true h b)
      | inl o ↦
          let b' : InBounds ((buf, offset) ∷ rest) = subst InBounds q b in
          let f' : length (pending ((buf, offset) ∷ rest)) < suc fuel =
            subst (λ p. length (pending p) < suc fuel) q f in
          subst (IsConserved h) (sym (write_loop-cons fuel buf offset rest h q o b'.0)) (
            after_write-IsConserved fuel _ (write_loop-IsConserved fuel) _ buf offset rest h _ q b'
              f' (write-Wrote os sent sends _ h.stream))
    ]
  ]

  IsConserved-trans :
      {h k : TcpSocketPollHandler W} {r : Result W Bool}
      → output k ≡ output h
      → IsConserved k r
      → IsConserved h r
  IsConserved-trans e c = record {
    same_output = c.same_output ∙ e;
    in_bounds = c.in_bounds;
    throws = c.throws;
  }

  after_pending-IsConserved :
      (h : TcpSocketPollHandler W) (r : TcpStream.Result W (Transfer ℕ))
      → InBounds h.write_queue
      → Wrote os sent sends [] h.stream r
      → IsConserved h (after_pending h r)
  after_pending-IsConserved h (err e, s) b w =
      unwritten-IsConserved _ h s b w.sent_more (λ x k. err-IsException k (w.throws e refl))
  after_pending-IsConserved h (ok (transferred n), s) b w = absurd (omega (arith, w.bounds n refl))
  after_pending-IsConserved h (ok eof, s) b w =
      unwritten-IsConserved _ h s b w.sent_more (λ x k. cc)
  after_pending-IsConserved h (ok blocked, s) b w =
      unwritten-IsConserved _ h s b w.sent_more (λ x k. cc)

  write_pending-IsConserved :
      (h : TcpSocketPollHandler W) → InBounds h.write_queue → IsConserved h (write_pending os h)
  unfolding write_pending
  write_pending-IsConserved h b =
      let w =
        after_pending-IsConserved h (TcpStream.write os [] h.stream) b
          (write-Wrote os sent sends [] h.stream) in
      elim (Bool-cases (is_open h && TcpStream.want_write os h.stream)) [
        | inl e ↦ rw e w
        | inr e ↦ rw e (same-IsConserved true h b)
      ]

  then_pending-IsConserved :
      (h : TcpSocketPollHandler W) (r : Result W Bool)
      → IsConserved h r
      → IsConserved h (then_pending os r)
  then_pending-IsConserved h (err e, k) c = c
  then_pending-IsConserved h (ok _, k) c =
      IsConserved-trans c.same_output (write_pending-IsConserved k c.in_bounds)

  write_thrown-IsConserved :
      (h : TcpSocketPollHandler W) (r : Result W Bool)
      → IsConserved h r
      → IsConserved h (write_thrown r)
  write_thrown-IsConserved h (err e, k) c = record {
    same_output = c.same_output;
    in_bounds = c.in_bounds;
    throws = c.throws;
  }
  write_thrown-IsConserved h (ok _, k) c = record {
    same_output = c.same_output;
    in_bounds = c.in_bounds;
    throws = λ e q. cc;
  }

  -- For a handler none of whose offsets lies behind its buffer, with fuel above the number of bytes
  -- to write.
  pub write-IsConserved :
      (fuel : ℕ) (h : TcpSocketPollHandler W)
      → InBounds h.write_queue
      → length (pending h.write_queue) < fuel
      → IsConserved h (write os fuel h)
  unfolding write
  write-IsConserved fuel h b f =
      write_thrown-IsConserved h _
        (then_pending-IsConserved h _ (write_loop-IsConserved fuel h b f))
