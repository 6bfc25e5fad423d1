-- ===== src/Io/Poller/Invariant.antt =====
-- What holds of the poller and its client between two calls, and which calls keep it.
use cpp_prototype.Common.{
  ℕ, ◌≡◌, refl, sym, ap, subst, ◌∙◌, Bool, true, false, if◌then◌else◌, if_intro, if_cases,
  option_intro, List, [], ◌∷◌, Bytes, Option, none, some, Outcome, ok, err, Error, IsException,
  terminated, All-append, arith,
}
use cpp_prototype.Common.Key.{ℕ_key, same, same_iff}
use cpp_prototype.Common.Map.{find, is_some, find-put}
use cpp_prototype.Common.Ordered.{IsOrdered, put-IsOrdered}
use cpp_prototype.Io.TcpSocketPollHandler
use cpp_prototype.Io.TcpSocketPollHandler.{TcpSocketPollHandler}
use cpp_prototype.Io.TcpSocketPollHandler.Pending.{InBounds}
use cpp_prototype.Io.PollHandler
use cpp_prototype.Io.PollHandler.{PollHandler, listener, connection, TcpListenerPollHandler}
use cpp_prototype.Io.Poller.{PollClient, Poller, Result, and_then, noexcept, set_handler, write}

module _ {W : Type 0} where
  abbrev pub is_connection : Option (PollHandler W) → Bool
  is_connection none = false
  is_connection (some (listener _)) = false
  is_connection (some (connection _)) = true

  -- No offset of a write queue lies behind the end of its buffer.
  abbrev pub IsBounded : Option (PollHandler W) → Type 0
  IsBounded none = Unit
  IsBounded (some (listener _)) = Unit
  IsBounded (some (connection h)) = InBounds h.write_queue

  -- The client knows of a descriptor exactly where the table has a connection for it.
  abbrev pub Fits : Bool → Option (PollHandler W) → Type 0
  Fits b o = (b ≡ is_connection o) × IsBounded o

  enqueue-IsBounded :
      (buf : Bytes) (h : PollHandler W)
      → IsBounded (some h)
      → IsBounded (some (PollHandler.enqueue buf h))
  unfolding TcpSocketPollHandler.enqueue
  enqueue-IsBounded buf (listener l) b = tt
  enqueue-IsBounded buf (connection h) b =
      All-append _ h.write_queue ((buf, 0) ∷ []) b (omega arith, tt)

  enqueue-is_connection :
      (buf : Bytes) (h : PollHandler W)
      → is_connection (some (PollHandler.enqueue buf h)) ≡ is_connection (some h)
  enqueue-is_connection buf (listener l) = refl
  enqueue-is_connection buf (connection h) = refl

module _ {W : Type 0} where
  pub close-IsBounded :
      (b : Bool) (h : PollHandler W)
      → IsBounded (some h)
      → IsBounded (some (PollHandler.close b h).1)
  unfolding PollHandler.close TcpSocketPollHandler.close
  close-IsBounded b (listener l) k = ground arith
  close-IsBounded b (connection h) k = ground (arith, k)

  pub close-is_connection :
      (b : Bool) (h : PollHandler W)
      → is_connection (some (PollHandler.close b h).1) ≡ is_connection (some h)
  unfolding PollHandler.close TcpSocketPollHandler.close
  close-is_connection b (listener l) = ground arith
  close-is_connection b (connection h) = refl

  pub close-throws :
      (b : Bool) (h : PollHandler W) (e : Error) → (PollHandler.close b h).0 ≡ err e → IsException e
  unfolding PollHandler.close TcpSocketPollHandler.close
  close-throws b (listener l) e k = ground arith
  close-throws b (connection h) e k = ground arith

-- What a client knows of descriptors, and the exceptions that its callbacks throw.
pub record IsTracking {C : Type 0} (client : PollClient C) (tracked : ℕ → C → Bool)
    (Allowed : Error → Type 0) : Type 0 where
  pub on_startup : (k : ℕ) (c : C) → tracked k (client.on_startup c).client ≡ tracked k c
  pub on_interrupt : (k : ℕ) (c : C) → tracked k (client.on_interrupt c).client ≡ tracked k c
  pub on_open :
      (k fd : ℕ) (host : Bytes) (port : ℕ) (c : C)
      → tracked k (client.on_open fd host port c).client ≡ (if same k fd then true else tracked k c)
  pub on_close :
      (k fd : ℕ) (c : C)
      → tracked k (client.on_close fd c).client ≡ (if same k fd then false else tracked k c)
  pub on_read :
      (k fd : ℕ) (bufs : List Bytes) (c : C)
      → tracked k (client.on_read fd bufs c).client ≡ tracked k c
  pub on_error : (k fd : ℕ) (c : C) → tracked k (client.on_error fd c).client ≡ tracked k c
  pub exceptions : (e : Error) → IsException e → Allowed e
  pub startup_throws : (c : C) (e : Error) → (client.on_startup c).thrown ≡ some e → Allowed e
  pub interrupt_throws : (c : C) (e : Error) → (client.on_interrupt c).thrown ≡ some e → Allowed e
  pub open_throws :
      (fd : ℕ) (host : Bytes) (port : ℕ) (c : C) (e : Error)
      → (client.on_open fd host port c).thrown ≡ some e
      → Allowed e
  pub close_throws :
      (fd : ℕ) (c : C) (e : Error) → (client.on_close fd c).thrown ≡ some e → Allowed e
  pub read_throws :
      (fd : ℕ) (bufs : List Bytes) (c : C) (e : Error)
      → (client.on_read fd bufs c).thrown ≡ some e
      → Allowed e
  pub error_throws :
      (fd : ℕ) (c : C) (e : Error) → (client.on_error fd c).thrown ≡ some e → Allowed e

module _ {W N C : Type 0} (tracked : ℕ → C → Bool) (Allowed : Error → Type 0)
    (exceptions : (e : Error) → IsException e → Allowed e) where
  abbrev pub IsValid : Poller W N C → Type 0
  IsValid p = (fd : ℕ) → Fits (tracked fd p.client) (find fd p.handlers)

  -- A call keeps the invariant and every handler, and throws what is allowed.
  pub record Keeps (p : Poller W N C) (r : Result W N C Bool) : Type 0 where
    pub valid : IsValid r.1
    pub grows :
        (fd : ℕ) → is_some (find fd p.handlers) ≡ true → is_some (find fd r.1.handlers) ≡ true
    pub ordered : IsOrdered p.handlers → IsOrdered r.1.handlers
    pub throws : (e : Error) → r.0 ≡ err e → Allowed e

  pub same-Keeps : (p : Poller W N C) (b : Bool) → IsValid p → Keeps p (ok b, p)
  same-Keeps p b v = record { valid = v; grows = λ fd h. h; ordered = λ o. o; throws = λ e k. cc }

  pub and_then-Keeps :
      (p : Poller W N C) (r : Result W N C Bool) (f : Bool → Poller W N C → Result W N C Bool)
      → Keeps p r
      → ((b : Bool) (q : Poller W N C) → r ≡ (ok b, q) → IsValid q → Keeps q (f b q))
      → Keeps p (and_then r f)
  and_then-Keeps p (ok b, q) f k g =
      let l = g b q refl k.valid in
      record {
        valid = l.valid;
        grows = λ fd h. l.grows fd (k.grows fd h);
        ordered = λ o. l.ordered (k.ordered o);
        throws = l.throws;
      }
  and_then-Keeps p (err e, q) f k g = k

  pub noexcept-Keeps : (p : Poller W N C) (r : Result W N C Bool) → Keeps p r → Keeps p (noexcept r)
  noexcept-Keeps p (ok b, q) k = k
  noexcept-Keeps p (err e, q) k = record {
    valid = ground (arith, k.valid);
    grows = ground (arith, k.grows);
    ordered = ground (arith, k.ordered);
    throws = ground (arith, k.throws, exceptions terminated tt);
  }

  -- A handler of the same kind takes the place of one.
  pub set_handler-IsValid :
      (fd : ℕ) (h h' : PollHandler W) (p : Poller W N C)
      → find fd p.handlers ≡ some h
      → is_connection (some h') ≡ is_connection (some h)
      → IsBounded (some h')
      → IsValid p
      → IsValid (set_handler fd h' p)
  set_handler-IsValid fd h h' p e c b v k =
      subst (Fits (tracked k p.client)) (sym (find-put k fd h' p.handlers)) (
        if_cases (Fits (tracked k p.client)) (same k fd) _ _
          (λ s.
            let here : find k p.handlers ≡ some h =
              ap (λ j. find j p.handlers) ((same_iff k fd).0 s) ∙ e in
            ((v k).0 ∙ ap is_connection here ∙ sym c, b))
          (λ s. v k))

  pub set_handler-grows :
      (fd : ℕ) (h : PollHandler W) (p : Poller W N C) (k : ℕ)
      → is_some (find k p.handlers) ≡ true
      → is_some (find k (set_handler fd h p).handlers) ≡ true
  set_handler-grows fd h p k e =
      subst (λ o. is_some o ≡ true) (sym (find-put k fd h p.handlers))
        (if_intro (λ (o : Option (PollHandler W)). is_some o ≡ true) (same k fd) _ _ refl e)

  pub set_handler-Keeps :
      (fd : ℕ) (h h' : PollHandler W) (p : Poller W N C) (o : Outcome Bool)
      → find fd p.handlers ≡ some h
      → is_connection (some h') ≡ is_connection (some h)
      → IsBounded (some h')
      → ((e : Error) → o ≡ err e → Allowed e)
      → IsValid p
      → Keeps p (o, set_handler fd h' p)
  set_handler-Keeps fd h h' p o e c b t v = record {
    valid = set_handler-IsValid fd h h' p e c b v;
    grows = set_handler-grows fd h' p;
    ordered = put-IsOrdered fd h' p.handlers;
    throws = t;
  }

  pub write-Keeps :
      (fd : ℕ) (buf : Bytes) (p : Poller W N C) → IsValid p → Keeps p (ok true, write fd buf p)
  unfolding write
  write-Keeps fd buf p v =
      option_intro (λ q. Keeps p (ok true, q)) (find fd p.handlers) _ _ (λ e. same-Keeps p true v)
        (λ h e.
          set_handler-Keeps fd h (PollHandler.enqueue buf h) p (ok true) e
            (enqueue-is_connection buf h) (enqueue-IsBounded buf h (subst IsBounded e (v fd).1))
            (λ x k. cc) v)
