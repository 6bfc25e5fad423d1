-- ===== src/Io/Poller/Requests.antt =====
-- What the requests of a callback leave: the descriptors that have handlers.
use cpp_prototype.Common.{
  ℕ, ◌≡◌, refl, sym, ap, subst, ◌∙◌, Bool, if◌then◌else◌, if_cases, option_intro, List, [], ◌∷◌,
  Bytes, Option, none, some, ok, err, Error, arith,
}
use cpp_prototype.Common.Key.{ℕ_key, same, same_iff}
use cpp_prototype.Common.Map.{find, put, is_some, find-put}
use cpp_prototype.Io.PollHandler.{PollHandler, is_open}
use cpp_prototype.Io.Poller.{
  System, Request, write_to, close_fd, Reply, Poller, Result, and_then, noexcept, set_handler,
  thrown_or_true, write, close, perform, answer,
}

module _ {W N C : Type 0} (sys : System W N) where
  abbrev pub HasSame : Poller W N C → Poller W N C → Type 0
  HasSame p q = (k : ℕ) → is_some (find k q.handlers) ≡ is_some (find k p.handlers)

  set_handler-HasSame :
      (fd : ℕ) (h h' : PollHandler W) (p q : Poller W N C)
      → find fd p.handlers ≡ some h
      → q.handlers ≡ p.handlers
      → HasSame p (set_handler fd h' q)
  set_handler-HasSame fd h h' p q e s k =
      ap (λ m. is_some (find k (put fd h' m))) s
      ∙ ap is_some (find-put k fd h' p.handlers)
      ∙ if_cases (λ o. is_some o ≡ is_some (find k p.handlers)) (same k fd) (some h') _
          (λ t. sym (ap is_some (ap (λ j. find j p.handlers) ((same_iff k fd).0 t) ∙ e)))
          (λ t. refl)

  noexcept-handlers : (r : Result W N C Bool) → (noexcept r).1 ≡ r.1
  noexcept-handlers (ok b, p) = refl
  noexcept-handlers (err e, p) = ground arith

  close-HasSame : (fd : ℕ) (p : Poller W N C) → HasSame p (close sys fd p).1
  unfolding close
  close-HasSame fd p =
      option_intro (λ (r : Result W N C Bool). HasSame p r.1) (find fd p.handlers) _ _ (λ e k. refl)
        (λ h e. subst (HasSame p) (sym (noexcept-handlers _)) (
          set_handler-HasSame fd h _ p
            (record p { system = if is_open h then (sys.close fd p.system).1 else p.system }) e
            refl))

  write-HasSame : (fd : ℕ) (buf : Bytes) (p : Poller W N C) → HasSame p (write fd buf p)
  unfolding write
  write-HasSame fd buf p =
      option_intro (HasSame p) (find fd p.handlers) _ _ (λ e k. refl)
        (λ h e. set_handler-HasSame fd h _ p p e refl)

  and_then-HasSame :
      (p : Poller W N C) (r : Result W N C Bool) (f : Bool → Poller W N C → Result W N C Bool)
      → HasSame p r.1
      → ((b : Bool) (q : Poller W N C) → HasSame q (f b q).1)
      → HasSame p (and_then r f).1
  and_then-HasSame p (ok b, q) f h g k = g b q k ∙ h k
  and_then-HasSame p (err e, q) f h g k = h k

  perform-HasSame : (rs : List Request) (p : Poller W N C) → HasSame p (perform sys rs p).1
  unfolding perform
  perform-HasSame [] p k = refl
  perform-HasSame (write_to fd buf ∷ rs) p k =
      perform-HasSame rs (write fd buf p) k ∙ write-HasSame fd buf p k
  perform-HasSame (close_fd fd ∷ rs) p k =
      and_then-HasSame p (close sys fd p) _ (close-HasSame fd p) (λ _. perform-HasSame rs) k

  thrown_or_true-HasSame : (o : Option Error) (p : Poller W N C) → HasSame p (thrown_or_true o p).1
  thrown_or_true-HasSame none p k = refl
  thrown_or_true-HasSame (some e) p k = refl

  pub answer-HasSame : (r : Reply C) (p : Poller W N C) → HasSame p (answer sys r p).1
  unfolding answer
  answer-HasSame r p =
      and_then-HasSame (record p { client = r.client }) _ _
        (perform-HasSame r.requests (record p { client = r.client }))
        (λ _. thrown_or_true-HasSame r.thrown)
