-- ===== src/Io/TcpSocketPollHandler/Draining.antt =====
-- A connection that takes bytes whenever it is offered some: one call of `write` sends all.
use cpp_prototype.Common.{
  ℕ, zero, suc, ◌-◌, min, ◌≤◌, ◌<◌, ◌≡◌, ◌≢◌, inl, inr, refl, sym, ap, subst, ◌∙◌, Bool, true, List,
  [], ◌∷◌, ◌++◌, append-nil, Bytes, some, length, take, drop, length-append, length-drop,
  length-take, All, ok, err, arith,
}
use cpp_prototype.Io.Ssl.{Openssl, Transfer, transferred}
use cpp_prototype.Io.TcpStream
use cpp_prototype.Io.TcpStream.{
  TcpStream, State, handshake, shutdown, handshake_first, shutdown_first, write_bio, after_write,
}
use cpp_prototype.Io.Transport.Writing.{Sends}
use cpp_prototype.Io.TcpSocketPollHandler
use cpp_prototype.Io.TcpSocketPollHandler.{
  Pending, TcpSocketPollHandler, Result, is_open, set_closed, advance, write_loop, after_pending,
  write_pending, then_pending, write_thrown, write,
}
use cpp_prototype.Io.TcpSocketPollHandler.Pending.{pending, InBounds, queue_cases, take-advance}
use cpp_prototype.Io.TcpSocketPollHandler.Sending.{
  write_loop-cons, write_loop-nil, write-IsConserved,
}

-- Every buffer has bytes that are still to be written.
abbrev pub AllUnwritten : List Pending → Type 0
AllUnwritten = All (λ (p : Pending). p.1 < length p.0)

AllUnwritten-InBounds : (q : List Pending) → AllUnwritten q → InBounds q
AllUnwritten-InBounds [] h = tt
AllUnwritten-InBounds (p ∷ q) h = (omega (arith, h.0), AllUnwritten-InBounds q h.1)

advance-AllUnwritten :
    (n count : ℕ) (buf : Bytes) (offset : ℕ) (rest : List Pending)
    → AllUnwritten ((buf, offset) ∷ rest)
    → n ≤ length (take count (drop offset buf))
    → AllUnwritten (advance n buf offset rest)
unfolding advance
advance-AllUnwritten n count buf offset rest h k =
    ground (arith, length-take count (drop offset buf), length-drop offset buf)

-- The connection takes at least one byte of what it is offered.
abbrev pub Accepts : {W : Type 0} → Openssl W → Type 0
Accepts {W} os =
    (buf : Bytes) (w : W) → 0 < length buf → (n : ℕ) × ((os.write_ex buf w).0 ≡ some (suc n))

-- An open stream that is neither in its handshake nor in its shutdown.
pub record IsReady {W : Type 0} (s : TcpStream W) : Type 0 where
  pub opened : s.is_open ≡ true
  pub shaken : s.state ≢ handshake
  pub not_shut : s.state ≢ shutdown

module _ {W : Type 0} (os : Openssl W) where
  write-taken :
      (n : ℕ) (buf : Bytes) (s : TcpStream W)
      → IsReady s
      → (os.write_ex buf s.bio).0 ≡ some (suc n)
      → TcpStream.write os buf s
        ≡ (ok (transferred (suc n)), record s { bio = (os.write_ex buf s.bio).1 })
  unfolding TcpStream.write handshake_first shutdown_first write_bio after_write
  write-taken n buf s r e = ground (arith, r.shaken, r.not_shut, e)

  module _ (sent : W → Bytes) (sends : Sends os sent) (accepts : Accepts os) where
    write_loop-drains :
        (fuel : ℕ) (h : TcpSocketPollHandler W)
        → AllUnwritten h.write_queue
        → IsReady h.stream
        → 0 < h.write_bufsiz
        → length (pending h.write_queue) < fuel
        → (write_loop os fuel h).1.write_queue ≡ []
    unfolding TcpSocketPollHandler.after_write
    write_loop-drains zero h u r z f = absurd (omega arith)
    write_loop-drains (suc fuel) h u r z f = elim (queue_cases h.write_queue) [
      | inl q ↦ subst (λ t. t.1.write_queue ≡ []) (sym (write_loop-nil os sent sends fuel h q)) q
      | inr ((buf, offset), rest, q) ↦
          let u' : AllUnwritten ((buf, offset) ∷ rest) = subst AllUnwritten q u in
          let count = min (length buf - offset) h.write_bufsiz in
          let chunk = take count (drop offset buf) in
          let size : 0 < length chunk =
            omega (arith, length-take count (drop offset buf), length-drop offset buf, u'.0, z) in
          let (n, e) = accepts chunk h.stream.bio size in
          let m = sends.written chunk h.stream.bio (suc n) e in
          let s = record (h.stream) { bio = (os.write_ex chunk h.stream.bio).1 } in
          let left = advance (suc n) buf offset rest in
          let cut = take-advance (suc n) count buf offset rest m in
          let less : length (pending left) < fuel = omega (
            arith,
            ap length cut,
            length-append (take (suc n) chunk) (pending left),
            length-take (suc n) chunk,
            m,
            subst (λ p. length (pending p) < suc fuel) q f,
          ) in
          let round =
            write_loop-cons os sent sends fuel buf offset rest h q r.opened (omega (arith, u'.0))
            ∙ ap (TcpSocketPollHandler.after_write (write_loop os fuel) buf offset rest h)
                (write-taken n chunk h.stream r e) in
          subst (λ t. t.1.write_queue ≡ []) (sym round)
            (write_loop-drains fuel (record h { stream = s; write_queue = left })
              (advance-AllUnwritten (suc n) count buf offset rest u' m)
              (record { opened = r.opened; shaken = r.shaken; not_shut = r.not_shut }) z less)
    ]

  after_pending-write_queue :
      (h : TcpSocketPollHandler W) (r : TcpStream.Result W (Transfer ℕ))
      → (after_pending h r).1.write_queue ≡ h.write_queue
  after_pending-write_queue h (err e, s) = refl
  after_pending-write_queue h (ok _, s) = refl

  write_pending-write_queue :
      (h : TcpSocketPollHandler W) → (write_pending os h).1.write_queue ≡ h.write_queue
  unfolding write_pending
  write_pending-write_queue h =
      ground (arith, after_pending-write_queue h (TcpStream.write os [] h.stream))

  write_thrown-write_queue : (r : Result W Bool) → (write_thrown r).1.write_queue ≡ r.1.write_queue
  write_thrown-write_queue (err e, s) = refl
  write_thrown-write_queue (ok _, s) = refl

  then_pending-write_queue :
      (r : Result W Bool) → (then_pending os r).1.write_queue ≡ r.1.write_queue
  then_pending-write_queue (err e, s) = refl
  then_pending-write_queue (ok _, h) = write_pending-write_queue h

  module _ (sent : W → Bytes) (sends : Sends os sent) (accepts : Accepts os) where
    -- Where the connection takes at least a byte whenever it is offered some, the stream is open
    -- and neither in its handshake nor in its shutdown, every buffer of the queue has bytes to
    -- write, and a positive number may be written at once: one call of `write`, with fuel above
    -- the number of bytes to write, leaves the queue empty and has sent all of them, in order.
    pub write-drains :
        (fuel : ℕ) (h : TcpSocketPollHandler W)
        → AllUnwritten h.write_queue
        → IsReady h.stream
        → 0 < h.write_bufsiz
        → length (pending h.write_queue) < fuel
        → ((write os fuel h).1.write_queue ≡ [])
          × (sent (write os fuel h).1.stream.bio ≡ sent h.stream.bio ++ pending h.write_queue)
    unfolding write pending
    write-drains fuel h u r z f =
        let drained =
          write_thrown-write_queue (then_pending os (write_loop os fuel h))
          ∙ then_pending-write_queue (write_loop os fuel h)
          ∙ write_loop-drains sent sends accepts fuel h u r z f in
        let kept =
          write-IsConserved os sent sends fuel h (AllUnwritten-InBounds h.write_queue u) f in
        let now = sent (write os fuel h).1.stream.bio in
        (
          drained,
          sym (append-nil now) ∙ ap (λ q. now ++ pending q) (sym drained) ∙ kept.same_output,
        )
