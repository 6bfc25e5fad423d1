-- ===== src/Io/FilePollHandler/Writing.antt =====
-- What `write` of the handler of a file does with its queue.
use cpp_prototype.Common.{
  ℕ, zero, suc, ◌-◌, min, ◌≤◌, ◌<◌, ◌≡◌, refl, sym, ap, subst, ◌∙◌, Bool, true, false, inl, inr,
  Bool-cases, List, [], ◌∷◌, ◌++◌, append_assoc, append-nil, if_cases, ◌==◌, ==_iff, ◌⊎◌, Bytes,
  length, take, drop, length-take, length-append, Outcome, ok, err, Error, terminated, undefined,
  out_of_fuel, IsException, err-IsException, arith,
}
use cpp_prototype.Io.FileStream
use cpp_prototype.Io.FileStream.{FileStream, FileCalls, Called, returned, would_block, failed}
use cpp_prototype.Io.TcpSocketPollHandler.{Pending, advance}
use cpp_prototype.Io.TcpSocketPollHandler.Pending.{
  pending, InBounds, queue_cases, take-advance, advance-InBounds,
}
use cpp_prototype.Io.FilePollHandler.{
  FilePollHandler, Result, is_open, after_write, write_thrown, write_loop, write,
}

-- A call of ::write has taken a prefix of the bytes, or none.
abbrev pub Took : Bytes → Bytes → Bytes → Called ℕ → Type 0
Took before buf after (returned n) = (n ≤ length buf) × (after ≡ before ++ take n buf)
Took before buf after would_block = after ≡ before
Took before buf after failed = after ≡ before

-- What ::write promises of the file, of which `written` is what it has been given.
pub record Appends {W : Type 0} (calls : FileCalls W) (written : W → Bytes) : Type 0 where
  pub takes :
      (buf : Bytes) (w : W)
      → Took (written w) buf (written (calls.write buf w).1) (calls.write buf w).0

module _ {W : Type 0} (calls : FileCalls W) (written : W → Bytes)
    (appends : Appends calls written) where
  abbrev pub output : FilePollHandler W → Bytes
  output h = written h.stream.descriptor ++ pending h.write_queue

  -- No byte is lost, repeated or moved.
  record IsConserved (h : FilePollHandler W) (r : Result W Bool) : Type 0 where
    same_output : output r.1 ≡ output h
    in_bounds : InBounds r.1.write_queue
    throws : (e : Error) → r.0 ≡ err e → IsException e

  -- The loop ends where nothing has been written.
  unwritten-IsConserved :
      (o : Outcome Bool) (h : FilePollHandler W) (s : FileStream W)
      → InBounds h.write_queue
      → written s.descriptor ≡ written h.stream.descriptor
      → ((e : Error) → o ≡ err e → IsException e)
      → IsConserved h (o, record h { stream = s })
  unwritten-IsConserved o h s b e t = record {
    same_output = ap (λ x. x ++ pending h.write_queue) e;
    in_bounds = b;
    throws = t;
  }

  -- A loop that behaves on all handlers with less than `k` bytes to write.
  abbrev Behaves : ℕ → (FilePollHandler W → Result W Bool) → Type 0
  Behaves k loop =
      (h : FilePollHandler W)
      → InBounds h.write_queue
      → length (pending h.write_queue) < k
      → IsConserved h (loop h)

  module _ (fuel : ℕ) (loop : FilePollHandler W → Result W Bool) (ih : Behaves fuel loop)
      (count : ℕ) (buf : Bytes) (offset : ℕ) (rest : List Pending) (h : FilePollHandler W) (w : W)
      (q : h.write_queue ≡ (buf, offset) ∷ rest) (b : InBounds ((buf, offset) ∷ rest))
      (f : length (pending ((buf, offset) ∷ rest)) < suc fuel) where
    abbrev chunk : Bytes
    chunk = take count (drop offset buf)

    abbrev moved : FileStream W
    moved = record (h.stream) { descriptor = w }

    written-IsConserved :
        (n : ℕ)
        → n ≤ length chunk
        → 0 < n
        → written w ≡ written h.stream.descriptor ++ take n chunk
        → IsConserved h
            (loop (record h { stream = moved; write_queue = advance n buf offset rest }))
    written-IsConserved n m p e =
        let left = pending (advance n buf offset rest) in
        let cut : take n chunk ++ left ≡ pending ((buf, offset) ∷ rest) =
          take-advance n count buf offset rest m in
        let size : length (take n chunk) ≡ n = omega (arith, length-take n chunk) in
        let less : length left < fuel =
          omega (arith, ap length cut, length-append (take n chunk) left, size, f, p) in
        let step =
          ih (record h { stream = moved; write_queue = advance n buf offset rest })
            (advance-InBounds n count buf offset rest b m) less in
        record {
          same_output =
              step.same_output
              ∙ ap (λ x. x ++ left) e
              ∙ append_assoc (written h.stream.descriptor) (take n chunk) left
              ∙ ap (λ x. written h.stream.descriptor ++ x) (cut ∙ ap pending (sym q));
          in_bounds = step.in_bounds;
          throws = step.throws;
        }

    after_write-IsConserved :
        (called : Called ℕ)
        → Took (written h.stream.descriptor) chunk (written w) called
        → IsConserved h (after_write loop buf offset rest h (FileStream.after_write called moved))
    unfolding after_write FileStream.after_write
    after_write-IsConserved failed t =
        unwritten-IsConserved _ h _ (subst InBounds (sym q) b) t (λ x k. err-IsException k tt)
    after_write-IsConserved would_block t =
        unwritten-IsConserved _ h _ (subst InBounds (sym q) b) t (λ x k. cc)
    after_write-IsConserved (returned n) t =
        if_cases (λ r. IsConserved h (after_write loop buf offset rest h r)) (n == 0) _ _
          (λ z.
            let none_taken : take n chunk ≡ [] = ap (λ k. take k chunk) ((==_iff n 0).0 z) in
            unwritten-IsConserved _ h _ (subst InBounds (sym q) b)
              (t.1
                ∙ ap (λ x. written h.stream.descriptor ++ x) none_taken
                ∙ append-nil (written h.stream.descriptor))
              (λ x k. cc))
          (λ z. written-IsConserved n t.0 (ground (arith, z)) t.1)

  -- One round of the loop, on a queue that is not empty.
  write_loop-cons :
      (fuel : ℕ) (buf : Bytes) (offset : ℕ) (rest : List Pending) (h : FilePollHandler W)
      → h.write_queue ≡ (buf, offset) ∷ rest
      → is_open h ≡ true
      → offset ≤ length buf
      → let chunk = take (min (length buf - offset) h.write_bufsiz) (drop offset buf) in
        write_loop calls (suc fuel) h
        ≡ after_write
            (write_loop calls fuel)
            buf
            offset
            rest
            h
            (FileStream.write calls chunk h.stream)
  unfolding write_loop
  write_loop-cons fuel buf offset rest h q o b = ground (arith, q)

  write_loop-closed :
      (fuel : ℕ) (h : FilePollHandler W)
      → is_open h ≡ false
      → write_loop calls (suc fuel) h ≡ (ok true, h)
  unfolding write_loop
  write_loop-closed fuel h o = ground (arith, o)

  write_loop-nil :
      (fuel : ℕ) (h : FilePollHandler W)
      → h.write_queue ≡ []
      → write_loop calls (suc fuel) h ≡ (ok true, h)
  unfolding write_loop
  write_loop-nil fuel h q = ground (arith, q)

  same-IsConserved :
      (o : Bool) (h : FilePollHandler W) → InBounds h.write_queue → IsConserved h (ok o, h)
  same-IsConserved o h b = record { same_output = refl; in_bounds = b; throws = λ e k. cc }

  write_loop-IsConserved : (fuel : ℕ) → Behaves fuel (write_loop calls fuel)
  unfolding FileStream.write
  write_loop-IsConserved zero h b f = absurd (omega arith)
  write_loop-IsConserved (suc fuel) h b f = elim (queue_cases h.write_queue) [
    | inl q ↦ subst (IsConserved h) (sym (write_loop-nil fuel h q)) (same-IsConserved true h b)
    | inr ((buf, offset), rest, q) ↦ elim (Bool-cases (is_open h)) [
      | inr o ↦ subst (IsConserved h) (sym (write_loop-closed fuel h o)) (same-IsConserved true h b)
      | inl o ↦
          let b' : InBounds ((buf, offset) ∷ rest) = subst InBounds q b in
          let f' : length (pending ((buf, offset) ∷ rest)) < suc fuel =
            subst (λ p. length (pending p) < suc fuel) q f in
          subst (IsConserved h) (sym (write_loop-cons fuel buf offset rest h q o b'.0)) (
            after_write-IsConserved fuel _ (write_loop-IsConserved fuel) _ buf offset rest h _ q b'
              f' _ (appends.takes _ h.stream.descriptor))
    ]
  ]

  -- The call has ended, in what ends the program or without an exception, and no byte is lost.
  pub record IsWritten (h : FilePollHandler W) (r : Result W Bool) : Type 0 where
    pub same_output : output r.1 ≡ output h
    pub in_bounds : InBounds r.1.write_queue
    pub returns : (r.0 ≡ ok (is_open r.1)) ⊎ (r.0 ≡ err terminated)

  write_thrown-IsWritten :
      (h : FilePollHandler W) (o : Outcome Bool) (k : FilePollHandler W)
      → IsConserved h (o, k)
      → IsWritten h (write_thrown (o, k))
  write_thrown-IsWritten h (ok _) k c = record {
    same_output = c.same_output;
    in_bounds = c.in_bounds;
    returns = inl refl;
  }
  write_thrown-IsWritten h (err undefined) k c = absurd (c.throws undefined refl)
  write_thrown-IsWritten h (err out_of_fuel) k c = absurd (c.throws out_of_fuel refl)
  write_thrown-IsWritten h (err e) k c = record {
    same_output = c.same_output;
    in_bounds = c.in_bounds;
    returns = inr refl;
  }

  -- Where ::write takes some of the bytes from the front and reports how many, no offset of the
  -- queue lies behind its buffer, and the fuel is above the number of bytes to write: `write` of
  -- a file's handler ends, returning whether the file is open or ending the program; what the
  -- file has been given and then what is still to be written is as before, byte for byte, and no
  -- offset lies behind its buffer after it.
  pub write-IsWritten :
      (fuel : ℕ) (h : FilePollHandler W)
      → InBounds h.write_queue
      → length (pending h.write_queue) < fuel
      → IsWritten h (write calls fuel h)
  unfolding write
  write-IsWritten fuel h b f = write_thrown-IsWritten h _ _ (write_loop-IsConserved fuel h b f)
