-- ===== src/Io/TcpSocketPollHandler/History.antt =====
-- A handler under any sequence of calls of the poller is a queue of bytes.
use cpp_prototype.Common.{
  ℕ, zero, suc, ◌≡◌, refl, sym, ap, subst, ◌∙◌, Bool, true, if_intro, List, [], ◌∷◌, ◌++◌, map,
  append_assoc, append-nil, Bytes, Option, none, some, length, concat, All, All-append, ok, err,
  arith,
}
use cpp_prototype.Io.Ssl.{Openssl, Transfer, transferred, eof, blocked}
use cpp_prototype.Io.TcpStream
use cpp_prototype.Io.TcpStream.{
  TcpStream, unless_returned, handle_client_faulted, handshake_first, shutdown_first, read_bio,
}
use cpp_prototype.Io.Transport.{
  Withholds, handshake_first-Withholds, shutdown_first-Withholds, handle_shutdown-view,
}
use cpp_prototype.Io.Transport.Writing.{Sends}
use cpp_prototype.Io.TcpSocketPollHandler.{
  TcpSocketPollHandler, Result, make, is_open, dequeue, enqueue, after_read, read_loop, read_caught,
  read, write, close,
}
use cpp_prototype.Io.TcpSocketPollHandler.Pending.{pending, InBounds, pending-append}
use cpp_prototype.Io.TcpSocketPollHandler.Sending.{output, write-IsConserved}

-- The calls of the poller, and what happens to a connection between them.
pub data Call (W : Type 0) : Type 0 where
  enqueue_call : Bytes → Call W
  dequeue_call write_call : Call W
  read_call : ℕ → Call W
  close_call : Bool → Call W
  outside : (W → W) → Call W

abbrev pub enqueued : {W : Type 0} → Call W → Bytes
enqueued (enqueue_call buf) = buf
enqueued _ = []

module _ {W : Type 0} (os : Openssl W) where
  -- The fuel of `write` is one more than the bytes that it has to write.
  unfoldable pub call : Call W → TcpSocketPollHandler W → TcpSocketPollHandler W
  call (enqueue_call buf) h = enqueue buf h
  call dequeue_call h = (dequeue h).1
  call write_call h = (write os (suc (length (pending h.write_queue))) h).1
  call (read_call fuel) h = (read os fuel h).1
  call (close_call closes) h = (close closes h).1
  call (outside f) h = record h { stream = record (h.stream) { bio = f h.stream.bio } }

  unfoldable pub run : List (Call W) → TcpSocketPollHandler W → TcpSocketPollHandler W
  run [] h = h
  run (c ∷ cs) h = run cs (call c h)

module _ {W : Type 0} (os : Openssl W) (sent : W → Bytes) (sends : Sends os sent) where
  -- What happens outside sends nothing more.
  abbrev pub SendsNothing : Call W → Type 0
  SendsNothing (outside f) = (w : W) → sent (f w) ≡ sent w
  SendsNothing _ = Unit

  gate-sent :
      (s : TcpStream W) (r : TcpStream.Result W (Option (Transfer Bytes)))
      (rest : TcpStream W → TcpStream.Result W (Transfer Bytes))
      → Withholds os sent sends.keeps s r
      → ((t : TcpStream W) → sent (rest t).1.bio ≡ sent t.bio)
      → sent (unless_returned r rest).1.bio ≡ sent s.bio
  gate-sent s (ok none, t) rest h f = f t ∙ h.0
  gate-sent s (ok (some x), t) rest h f = h.0
  gate-sent s (err e, t) rest h f = h.0

  after_read-sent :
      (o : Option Bytes) (s : TcpStream W) → sent (TcpStream.after_read os o s).1.bio ≡ sent s.bio
  unfolding TcpStream.after_read handle_client_faulted
  after_read-sent none s = ground (
    arith,
    handle_shutdown-view os sent sends.keeps (record s { state = TcpStream.shutdown }),
    sends.keeps.set_quiet_shutdown true s.bio,
  )
  after_read-sent (some buf) s = ground arith

  read-sent : (len : ℕ) (s : TcpStream W) → sent (TcpStream.read os len s).1.bio ≡ sent s.bio
  unfolding TcpStream.read read_bio
  read-sent len s = gate-sent s _ _ (handshake_first-Withholds os sent sends.keeps s) λ t.
      gate-sent t _ _ (shutdown_first-Withholds os sent sends.keeps t) λ u.
        after_read-sent (os.read_ex len u.bio).0 (record u { bio = (os.read_ex len u.bio).1 })
        ∙ sends.read_ex len u.bio

  -- The output after a call: what there was, and what the call has added.
  record Adds (more : Bytes) (h k : TcpSocketPollHandler W) : Type 0 where
    in_bounds : InBounds k.write_queue
    more_output : output os sent sends k ≡ output os sent sends h ++ more

  same-Adds :
      (h k : TcpSocketPollHandler W)
      → InBounds h.write_queue
      → k.write_queue ≡ h.write_queue
      → sent k.stream.bio ≡ sent h.stream.bio
      → Adds [] h k
  same-Adds h k b q e = record {
    in_bounds = subst InBounds (sym q) b;
    more_output = ground (arith, q, e, append-nil (sent h.stream.bio ++ pending h.write_queue));
  }

  -- A call that writes nothing and sends nothing.
  abbrev Leaves : TcpSocketPollHandler W → TcpSocketPollHandler W → Type 0
  Leaves h k = (k.write_queue ≡ h.write_queue) × (sent k.stream.bio ≡ sent h.stream.bio)

  after_read-Leaves :
      (loop : TcpSocketPollHandler W → Result W Bool) (h : TcpSocketPollHandler W)
      (r : TcpStream.Result W (Transfer Bytes))
      → ((k : TcpSocketPollHandler W) → Leaves k (loop k).1)
      → sent r.1.bio ≡ sent h.stream.bio
      → Leaves h (after_read loop h r).1
  unfolding after_read
  after_read-Leaves loop h (err e, s) f w = (refl, w)
  after_read-Leaves loop h (ok eof, s) f w = (refl, w)
  after_read-Leaves loop h (ok blocked, s) f w = (refl, w)
  after_read-Leaves loop h (ok (transferred buf), s) f w =
      let (q, e) = f (record h { stream = s; read_queue = h.read_queue ++ buf ∷ [] }) in (q, e ∙ w)

  read_loop-Leaves : (fuel : ℕ) (h : TcpSocketPollHandler W) → Leaves h (read_loop os fuel h).1
  unfolding read_loop
  read_loop-Leaves zero h = (refl, refl)
  read_loop-Leaves (suc fuel) h =
      if_intro (λ (r : Result W Bool). Leaves h r.1) (is_open h) _ _
        (after_read-Leaves (read_loop os fuel) h _ (read_loop-Leaves fuel)
          (read-sent h.read_bufsiz h.stream))
        (refl, refl)

  read_caught-Leaves :
      (h : TcpSocketPollHandler W) (r : Result W Bool) → Leaves h r.1 → Leaves h (read_caught r).1
  read_caught-Leaves h (ok b, k) l = l
  read_caught-Leaves h (err e, k) l = ground (arith, l)

  close-Leaves : (b : Bool) (h : TcpSocketPollHandler W) → Leaves h (close b h).1
  unfolding close
  close-Leaves b h = ground arith

  dequeue-Leaves : (h : TcpSocketPollHandler W) → Leaves h (dequeue h).1
  unfolding dequeue
  dequeue-Leaves h = ground arith

  enqueue-Adds :
      (buf : Bytes) (h : TcpSocketPollHandler W)
      → InBounds h.write_queue
      → Adds buf h (enqueue buf h)
  unfolding enqueue pending
  enqueue-Adds buf h b = record {
    in_bounds = All-append _ h.write_queue ((buf, 0) ∷ []) b (omega arith, tt);
    more_output =
        ap (λ x. sent h.stream.bio ++ x)
          (pending-append h.write_queue ((buf, 0) ∷ [])
            ∙ ap (λ x. pending h.write_queue ++ x) (append-nil buf))
        ∙ sym (append_assoc (sent h.stream.bio) (pending h.write_queue) buf);
  }

  call-Adds :
      (c : Call W) (h : TcpSocketPollHandler W)
      → SendsNothing c
      → InBounds h.write_queue
      → Adds (enqueued c) h (call os c h)
  unfolding call read
  call-Adds (enqueue_call buf) h n b = enqueue-Adds buf h b
  call-Adds dequeue_call h n b = let l = dequeue-Leaves h in same-Adds h _ b l.0 l.1
  call-Adds write_call h n b =
      let c = write-IsConserved os sent sends _ h b (omega arith) in
      record {
        in_bounds = c.in_bounds;
        more_output = c.same_output ∙ sym (append-nil (output os sent sends h));
      }
  call-Adds (read_call fuel) h n b =
      let l = read_caught-Leaves h (read_loop os fuel h) (read_loop-Leaves fuel h) in
      same-Adds h _ b l.0 l.1
  call-Adds (close_call closes) h n b = let l = close-Leaves closes h in same-Adds h _ b l.0 l.1
  call-Adds (outside f) h n b = same-Adds h _ b refl (n h.stream.bio)

  run-Adds :
      (cs : List (Call W)) (h : TcpSocketPollHandler W)
      → All SendsNothing cs
      → InBounds h.write_queue
      → Adds (concat (map enqueued cs)) h (run os cs h)
  unfolding run
  run-Adds [] h n b = same-Adds h h b refl refl
  run-Adds (c ∷ cs) h n b =
      let first = call-Adds c h n.0 b in
      let rest = run-Adds cs (call os c h) n.1 first.in_bounds in
      record {
        in_bounds = rest.in_bounds;
        more_output =
            rest.more_output
            ∙ ap (λ x. x ++ concat (map enqueued cs)) first.more_output
            ∙ append_assoc (output os sent sends h) (enqueued c) (concat (map enqueued cs));
      }

  -- A handler under any sequence of calls of the poller is a queue of bytes: what it has sent and
  -- then what is still to be written are the bytes sent before and then all that has been
  -- enqueued, in order, whether calls succeed or throw, and no offset lies behind the end of its
  -- buffer. This asks that BIO_write_ex takes bytes from the front and reports how many, and that
  -- nothing else sends any.
  pub run_sent :
      (cs : List (Call W)) (s : TcpStream W) (read_bufsiz write_bufsiz : ℕ)
      → All SendsNothing cs
      → let h = run os cs (make s read_bufsiz write_bufsiz) in
        (sent h.stream.bio ++ pending h.write_queue ≡ sent s.bio ++ concat (map enqueued cs))
        × InBounds h.write_queue
  unfolding pending
  run_sent cs s r w n =
      let a = run-Adds cs (make s r w) n tt in
      (
        a.more_output ∙ ap (λ x. x ++ concat (map enqueued cs)) (append-nil (sent s.bio)),
        a.in_bounds,
      )
