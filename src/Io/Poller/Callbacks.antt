-- ===== src/Io/Poller/Callbacks.antt =====
-- The callbacks of the poller keep the invariant.
use cpp_prototype.Common.{
  ℕ, ◌≡◌, refl, sym, subst, Bool, true, false, if◌then◌else◌, option_intro, List, [], ◌∷◌, Bytes,
  Option, none, some, Outcome, ok, err, Error, IsException, undefined, out_of_fuel, terminated,
}
use cpp_prototype.Common.Key.{ℕ_key, same}
use cpp_prototype.Common.Map.{find, find-put}
use cpp_prototype.Common.Ordered.{put-IsOrdered}
use cpp_prototype.Io.TcpSocketPollHandler.{TcpSocketPollHandler}
use cpp_prototype.Io.PollHandler
use cpp_prototype.Io.PollHandler.{PollHandler, listener, connection, TcpListenerPollHandler}
use cpp_prototype.Io.Poller.{
  System, Accepted, Request, write_to, close_fd, Reply, PollClient, Poller, Result, and_then,
  noexcept, set_handler, thrown_or_true, write, close, perform, answer, add_handler, accepted,
  read_listener, caught,
}
use cpp_prototype.Io.Poller.Invariant.{
  set_handler-grows, IsBounded, Fits, close-IsBounded, close-is_connection, close-throws,
  IsTracking, IsValid, Keeps, same-Keeps, and_then-Keeps, noexcept-Keeps, set_handler-Keeps,
  write-Keeps,
}

module _ {W N C : Type 0} (tracked : ℕ → C → Bool) (Allowed : Error → Type 0)
    (exceptions : (e : Error) → IsException e → Allowed e) (sys : System W N) where
  abbrev Valid : Poller W N C → Type 0
  Valid = IsValid tracked Allowed exceptions

  abbrev Kept : Poller W N C → Result W N C Bool → Type 0
  Kept = Keeps tracked Allowed exceptions

  close-Keeps : (fd : ℕ) (p : Poller W N C) → Valid p → Kept p (close sys fd p)
  unfolding close
  close-Keeps fd p v =
      option_intro (Kept p) (find fd p.handlers) _ _
        (λ e. same-Keeps tracked Allowed exceptions p true v)
        (λ h e.
          let closes = (sys.close fd p.system).0 in
          noexcept-Keeps tracked Allowed exceptions p _ (
            as_seen (
              set_handler-Keeps tracked Allowed exceptions fd h (PollHandler.close closes h).1
                (record p { system = _ }) _ e (close-is_connection closes h)
                (close-IsBounded closes h (subst IsBounded e (v fd).1))
                (λ x k. exceptions x (close-throws closes h x k)) v)))
    where
      as_seen : {n : N} {r : Result W N C Bool} → Kept (record p { system = n }) r → Kept p r
      as_seen k = record {
        valid = k.valid;
        grows = k.grows;
        ordered = k.ordered;
        throws = k.throws;
      }

  perform-Keeps : (rs : List Request) (p : Poller W N C) → Valid p → Kept p (perform sys rs p)
  unfolding perform
  perform-Keeps [] p v = same-Keeps tracked Allowed exceptions p true v
  perform-Keeps (write_to fd buf ∷ rs) p v =
      and_then-Keeps tracked Allowed exceptions p (ok true, write fd buf p) (λ _. perform sys rs)
        (write-Keeps tracked Allowed exceptions fd buf p v) (λ b q e w. perform-Keeps rs q w)
  perform-Keeps (close_fd fd ∷ rs) p v =
      and_then-Keeps tracked Allowed exceptions p (close sys fd p) (λ _. perform sys rs)
        (close-Keeps fd p v) (λ b q e w. perform-Keeps rs q w)

  thrown_or_true-Keeps :
      (o : Option Error) (p : Poller W N C)
      → ((e : Error) → o ≡ some e → Allowed e)
      → Valid p
      → Kept p (thrown_or_true o p)
  thrown_or_true-Keeps none p t v = same-Keeps tracked Allowed exceptions p true v
  thrown_or_true-Keeps (some e) p t v = record {
    valid = v;
    grows = λ k h. h;
    ordered = λ o. o;
    throws = λ x k. subst Allowed (cc) (t e refl);
  }

  -- A callback after which the client still fits the table.
  pub answer-Keeps :
      (r : Reply C) (p : Poller W N C)
      → Valid (record p { client = r.client })
      → ((e : Error) → r.thrown ≡ some e → Allowed e)
      → Kept p (answer sys r p)
  unfolding answer
  answer-Keeps r p v t =
      let q = record p { client = r.client } in
      let k =
        and_then-Keeps tracked Allowed exceptions q (perform sys r.requests q)
          (λ _. thrown_or_true r.thrown) (perform-Keeps r.requests q v)
          (λ b x e w. thrown_or_true-Keeps r.thrown x t w) in
      record { valid = k.valid; grows = k.grows; ordered = k.ordered; throws = k.throws }

pub Fits-if :
    {W : Type 0} (b t u : Bool) (o o' : Option (PollHandler W))
    → Fits u o'
    → Fits t o
    → Fits (if b then u else t) (if b then o' else o)
Fits-if true t u o o' f g = f
Fits-if false t u o o' f g = g

module _ {W N C : Type 0} (sys : System W N) (client : PollClient C) (tracked : ℕ → C → Bool)
    (Allowed : Error → Type 0) (tracks : IsTracking client tracked Allowed) where
  abbrev pub IsKept : Poller W N C → Result W N C Bool → Type 0
  IsKept = Keeps tracked Allowed tracks.exceptions

  abbrev pub Holds : Poller W N C → Type 0
  Holds = IsValid tracked Allowed tracks.exceptions

  -- What a callback leaves known is what the table has.
  pub told-Holds :
      (c : C) (p : Poller W N C)
      → ((k : ℕ) → tracked k c ≡ tracked k p.client)
      → Holds p
      → Holds (record p { client = c })
  told-Holds c p e v k = subst (λ b. Fits b (find k p.handlers)) (sym (e k)) (v k)

  add_handler-Keeps :
      (fd : ℕ) (h : TcpSocketPollHandler W) (host : Bytes) (port : ℕ) (p : Poller W N C)
      → IsBounded (some (connection h))
      → Holds p
      → IsKept p (add_handler sys client fd (connection h) host port p)
  unfolding add_handler
  add_handler-Keeps fd h host port p b v =
      let q = set_handler fd (connection h) p in
      let opened : Holds (record q { client = (client.on_open fd host port p.client).client }) =
        λ k. subst (Fits _) (sym (find-put k fd (connection h) p.handlers)) (
          subst (λ x. Fits x (if same k fd then some (connection h) else find k p.handlers))
            (sym (tracks.on_open k fd host port p.client))
            (Fits-if (same k fd) _ true _ _ (refl, b) (v k))) in
      let k =
        answer-Keeps tracked Allowed tracks.exceptions sys (client.on_open fd host port p.client) q
          opened (tracks.open_throws fd host port p.client) in
      noexcept-Keeps tracked Allowed tracks.exceptions p _ (record {
        valid = k.valid;
        grows = λ j e.
            k.grows j (set_handler-grows tracked Allowed tracks.exceptions fd (connection h) p j e);
        ordered = λ o. k.ordered (put-IsOrdered fd (connection h) p.handlers o);
        throws = k.throws;
      })

  pub read_listener-Keeps :
      (fd : ℕ) (l : TcpListenerPollHandler) (p : Poller W N C)
      → ((e : Error) → (sys.accept fd p.system).0 ≡ err e → Allowed e)
      → Holds p
      → IsKept p (read_listener sys client fd l p)
  unfolding read_listener
  read_listener-Keeps fd l p t v = accepted-Keeps (sys.accept fd p.system).0 t
    where
      accepted-Keeps :
          (o : Outcome (Accepted W))
          → ((e : Error) → o ≡ err e → Allowed e)
          → IsKept p (accepted sys client l o (record p { system = (sys.accept fd p.system).1 }))
      accepted-Keeps (err e) t = record {
        valid = v;
        grows = λ k h. h;
        ordered = λ o. o;
        throws = λ x k. subst Allowed (cc) (t e refl);
      }
      accepted-Keeps (ok a) t =
          let k = add_handler-Keeps a.fd _ a.host a.port (record p { system = _ }) tt v in
          record { valid = k.valid; grows = k.grows; ordered = k.ordered; throws = k.throws }

  caught_err-Keeps :
      (fd : ℕ) (p : Poller W N C)
      → Holds p
      → IsKept p
          (and_then (noexcept (answer sys (client.on_error fd p.client) p)) λ _ q. (ok false, q))
  caught_err-Keeps fd p v =
      and_then-Keeps tracked Allowed tracks.exceptions p _ _
        (noexcept-Keeps tracked Allowed tracks.exceptions p _ (
          answer-Keeps tracked Allowed tracks.exceptions sys (client.on_error fd p.client) p
            (told-Holds _ p (λ k. tracks.on_error k fd p.client) v)
            (tracks.error_throws fd p.client)))
        (λ b q e w. same-Keeps tracked Allowed tracks.exceptions q false w)

  pub caught-Keeps :
      (fd : ℕ) (p : Poller W N C) (r : Result W N C Bool)
      → IsKept p r
      → IsKept p (caught sys client fd r)
  caught-Keeps fd p (ok b, q) k = k
  caught-Keeps fd p (err e, q) k =
      let l = caught_err-Keeps fd q k.valid in
      let m : IsKept p (
          and_then (noexcept (answer sys (client.on_error fd q.client) q)) λ _ q'. (ok false, q')) =
        record {
          valid = l.valid;
          grows = λ j h. l.grows j (k.grows j h);
          ordered = λ o. l.ordered (k.ordered o);
          throws = l.throws;
        } in
      caught_cases e k m
    where
      caught_cases :
          (x : Error)
          → IsKept p (err x, q)
          → IsKept p (
              and_then
                (noexcept (answer sys (client.on_error fd q.client) q))
                λ _ q'. (ok false, q'))
          → IsKept p (caught sys client fd (err x, q))
      caught_cases undefined a b = a
      caught_cases out_of_fuel a b = a
      caught_cases terminated a b = a
      caught_cases _ a b = b
