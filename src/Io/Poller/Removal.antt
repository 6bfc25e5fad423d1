-- ===== src/Io/Poller/Removal.antt =====
-- `remove_closed_handlers`: the handlers that are not open leave the table, and their clients are told.
use cpp_prototype.Common.{
  ℕ, ◌≡◌, refl, sym, ap, subst, ◌∙◌, Bool, true, false, not, if◌then◌else◌, if_cases, option_intro,
  List, [], ◌∷◌, Option, none, some, ok, err, Error, All, All-imply, arith,
}
use cpp_prototype.Common.Key.{ℕ_key, same, same_iff, same_refl}
use cpp_prototype.Common.Map.{Map, find, erase, is_some, find-erase}
use cpp_prototype.Common.Ordered.{IsOrdered, IsBelow, erase-IsOrdered, find-IsBelow}
use cpp_prototype.Common.Set.{contains}
use cpp_prototype.Io.Ssl.{Openssl}
use cpp_prototype.Io.PollHandler.{
  PollHandler, listener, connection, is_listener, is_open, closed_fds,
}
use cpp_prototype.Io.Poller.{
  System, PollClient, Poller, Result, and_then, find_closed_handler_fds, answer,
}
use cpp_prototype.Io.Poller.Invariant.{is_connection, Fits, IsTracking}
use cpp_prototype.Io.Poller.Requests.{HasSame, answer-HasSame}
use cpp_prototype.Io.Poller.Callbacks.{Fits-if, IsKept, Holds, answer-Keeps}
use cpp_prototype.Io.Poller.EventLoop.{remove_handlers, remove_closed_handlers}

-- No descriptor twice.
abbrev AllDistinct : List ℕ → Type 0
AllDistinct [] = Unit {0}
AllDistinct (fd ∷ fds) = All (λ k. same k fd ≡ false) fds × AllDistinct fds

module _ {W : Type 0} where
  closed_fds-IsBelow :
      (k : ℕ) (m : Map ℕ (PollHandler W)) → IsBelow k m → All (λ j. same j k ≡ false) (closed_fds m)
  unfolding closed_fds
  closed_fds-IsBelow k [] b = tt
  closed_fds-IsBelow k ((j, h) ∷ m) b = ground (arith, closed_fds-IsBelow k m b.1, b)

  closed_fds-AllDistinct : (m : Map ℕ (PollHandler W)) → IsOrdered m → AllDistinct (closed_fds m)
  unfolding closed_fds
  closed_fds-AllDistinct [] o = tt
  closed_fds-AllDistinct ((k, h) ∷ m) o =
      ground (arith, closed_fds-AllDistinct m o.1, closed_fds-IsBelow k m o.0)

  -- The descriptors of the handlers that are not open are those for which `find` gives such a one.
  abbrev is_closed : Option (PollHandler W) → Bool
  is_closed none = false
  is_closed (some h) = not (is_open h)

  closed_fds-contains :
      (k : ℕ) (m : Map ℕ (PollHandler W))
      → IsOrdered m
      → contains k (closed_fds m) ≡ is_closed (find k m)
  unfolding closed_fds contains find
  closed_fds-contains k [] o = refl
  closed_fds-contains k ((j, h) ∷ m) o =
      ground (arith, closed_fds-contains k m o.1, same_iff k j, find-IsBelow j m o.0)

  contains-present :
      (fds : List ℕ) (m : Map ℕ (PollHandler W))
      → ((k : ℕ) → contains k fds ≡ true → is_some (find k m) ≡ true)
      → All (λ k. is_some (find k m) ≡ true) fds
  unfolding contains
  contains-present [] m h = tt
  contains-present (fd ∷ fds) m h =
      (h fd (ground (arith, same_refl fd)), contains-present fds m (λ k e. h k (ground (arith, e))))

module _ {W N C : Type 0} (os : Openssl W) (sys : System W N) (client : PollClient C)
    (budget : W → ℕ) (tracked : ℕ → C → Bool) (Allowed : Error → Type 0)
    (tracks : IsTracking client tracked Allowed) where
  -- After the removal the descriptors `fds` have no handler, and the others do as before.
  pub record Removes (fds : List ℕ) (p : Poller W N C) (r : Result W N C Bool) : Type 0 where
    pub valid : Holds sys client tracked Allowed tracks r.1
    pub ordered : IsOrdered r.1.handlers
    pub throws : (e : Error) → r.0 ≡ err e → Allowed e
    pub left :
        (b : Bool)
        → r.0 ≡ ok b
        → (k : ℕ)
        → is_some (find k r.1.handlers)
          ≡ (if contains k fds then false else is_some (find k p.handlers))

  abbrev erased : ℕ → Poller W N C → Poller W N C
  erased fd p = record p { handlers = erase fd p.handlers }

  erased-present :
      (fd : ℕ) (fds : List ℕ) (p : Poller W N C)
      → All (λ k. same k fd ≡ false) fds
      → All (λ k. is_some (find k p.handlers) ≡ true) fds
      → All (λ k. is_some (find k (erased fd p).handlers) ≡ true) fds
  erased-present fd [] p d a = tt
  erased-present fd (k ∷ fds) p d a =
      (ground (arith, find-erase k fd p.handlers, d.0, a.0), erased-present fd fds p d.1 a.1)

  -- A listener goes without a word to the client.
  listener-Holds :
      (fd : ℕ) (h : PollHandler W) (p : Poller W N C)
      → find fd p.handlers ≡ some h
      → is_listener h ≡ true
      → Holds sys client tracked Allowed tracks p
      → Holds sys client tracked Allowed tracks (erased fd p)
  listener-Holds fd (connection h) p e l v k = absurd cc
  listener-Holds fd (listener h) p e l v k =
      subst (Fits (tracked k p.client)) (sym (find-erase k fd p.handlers)) (
        if_cases (Fits (tracked k p.client)) (same k fd) none _
          (λ s. (
            (v k).0 ∙ ap is_connection (ap (λ j. find j p.handlers) ((same_iff k fd).0 s) ∙ e),
            tt,
          ))
          (λ s. v k))

  -- The client is told of a connection that has gone.
  connection-Holds :
      (fd : ℕ) (p : Poller W N C)
      → Holds sys client tracked Allowed tracks p
      → Holds sys client tracked Allowed tracks
          (record (erased fd p) { client = (client.on_close fd p.client).client })
  connection-Holds fd p v k = subst (Fits _) (sym (find-erase k fd p.handlers)) (
      subst (λ b. Fits b (if same k fd then none else find k p.handlers))
        (sym (tracks.on_close k fd p.client)) (Fits-if (same k fd) _ false _ _ (refl, tt) (v k)))

  -- One descriptor, and then the others.
  cons-Removes :
      (fd : ℕ) (fds : List ℕ) (p q : Poller W N C) (r : Result W N C Bool)
      → HasSame sys (erased fd p) q
      → Removes fds q r
      → Removes (fd ∷ fds) p r
  unfolding contains
  cons-Removes fd fds p q r h w = record {
    valid = w.valid;
    ordered = w.ordered;
    throws = w.throws;
    left = λ b e k. ground (arith, w.left b e k, h k, find-erase k fd p.handlers);
  }

  abbrev AllPresent : List ℕ → Poller W N C → Type 0
  AllPresent fds p = All (λ k. is_some (find k p.handlers) ≡ true) fds

  same-AllPresent :
      (fds : List ℕ) (p q : Poller W N C) → HasSame sys p q → AllPresent fds p → AllPresent fds q
  same-AllPresent fds p q h a = All-imply _ _ fds (λ k e. h k ∙ e) a

  abbrev Removing : List ℕ → (Poller W N C → Result W N C Bool) → Type 0
  Removing fds f =
      (p : Poller W N C)
      → AllPresent fds p
      → IsOrdered p.handlers
      → Holds sys client tracked Allowed tracks p
      → Removes fds p (f p)

  told-Removes :
      (fd : ℕ) (fds : List ℕ) (p : Poller W N C) (r : Result W N C Bool)
      (f : Poller W N C → Result W N C Bool)
      → IsKept sys client tracked Allowed tracks (erased fd p) r
      → HasSame sys (erased fd p) r.1
      → AllPresent fds (erased fd p)
      → IsOrdered (erased fd p).handlers
      → Removing fds f
      → Removes (fd ∷ fds) p (and_then r (λ _. f))
  told-Removes fd fds p (ok b, q) f k h a o g =
      cons-Removes fd fds p q (f q) h
        (g q (same-AllPresent fds (erased fd p) q h a) (k.ordered o) k.valid)
  told-Removes fd fds p (err e, q) f k h a o g = record {
    valid = k.valid;
    ordered = k.ordered o;
    throws = k.throws;
    left = λ b x j. cc;
  }

  remove_handlers-Removes :
      (fds : List ℕ) → AllDistinct fds → Removing fds (remove_handlers os sys client budget fds)
  unfolding remove_handlers contains find
  remove_handlers-Removes [] d p a o v = record {
    valid = v;
    ordered = o;
    throws = λ e k. cc;
    left = λ b e k. refl;
  }
  remove_handlers-Removes (fd ∷ fds) d p a o v =
      let present = erased-present fd fds p d.0 a.1 in
      let ordered = erase-IsOrdered fd p.handlers o in
      option_intro (Removes (fd ∷ fds) p) (find fd p.handlers) _ _ (λ e. absurd cc)
        (λ h e.
          if_cases (Removes (fd ∷ fds) p) (is_listener h) _ _
            (λ l.
              cons-Removes fd fds p (erased fd p) _ (λ k. refl)
                (remove_handlers-Removes fds d.1 (erased fd p) present ordered
                  (listener-Holds fd h p e l v)))
            (λ l.
              let reply = client.on_close fd p.client in
              told-Removes fd fds p (answer sys reply (erased fd p)) _
                (answer-Keeps tracked Allowed tracks.exceptions sys reply (erased fd p)
                  (connection-Holds fd p v) (tracks.close_throws fd p.client))
                (answer-HasSame sys reply (erased fd p)) present ordered
                (remove_handlers-Removes fds d.1)))

  pub remove_closed_handlers-Removes :
      (p : Poller W N C)
      → IsOrdered p.handlers
      → Holds sys client tracked Allowed tracks p
      → Removes (closed_fds p.handlers) p (remove_closed_handlers os sys client budget p)
  unfolding remove_closed_handlers find_closed_handler_fds
  remove_closed_handlers-Removes p o v =
      remove_handlers-Removes (closed_fds p.handlers) (closed_fds-AllDistinct p.handlers o) p
        (contains-present (closed_fds p.handlers) p.handlers
          (λ k e. ground (arith, closed_fds-contains k p.handlers o, e)))
        o v
