-- ===== src/Io/Poller/Runs.antt =====
-- The event loop from its start, round after round.
use cpp_prototype.Common.{
  ℕ, ◌≡◌, refl, sym, ap, subst, ◌∙◌, Bool, true, if_intro, List, [], ◌∷◌, map, Outcome, ok, err,
  Error, All, All-imply, arith,
}
use cpp_prototype.Common.Key.{ℕ_key}
use cpp_prototype.Common.Map.{Map, find, keys, is_some, keys-find}
use cpp_prototype.Common.Ordered.{IsOrdered}
use cpp_prototype.Common.Set.{contains}
use cpp_prototype.Io.Ssl.{Openssl}
use cpp_prototype.Io.PollHandler.{PollHandler}
use cpp_prototype.Io.Poller.{System, PollClient, Poller, Interest, PollState, Result, and_then}
use cpp_prototype.Io.Poller.Invariant.{IsTracking, same-Keeps}
use cpp_prototype.Io.Poller.Callbacks.{IsKept, Holds, told-Holds, answer-Keeps}
use cpp_prototype.Io.Poller.EventLoop.{
  Polled, Round, interests_of, make_poll_fds, swallowed, interrupt, after_poll, rounds, event_loop,
}
use cpp_prototype.Io.Poller.Removal.{remove_closed_handlers-Removes}
use cpp_prototype.Io.Poller.Rounds.{Setting, IsPresent, handle_events-Keeps}

interests_of-keys :
    {W : Type 0} (os : Openssl W) (m : Map ℕ (PollHandler W))
    → map (λ (i : Interest). i.fd) (interests_of os m) ≡ keys m
unfolding keys
interests_of-keys os [] = refl
interests_of-keys os ((fd, h) ∷ m) = ap (◌∷◌ fd) (interests_of-keys os m)

-- `poll` fails as is allowed, or gives states of the descriptors that it was asked about.
abbrev pub Answers : (Error → Type 0) → List Interest → Outcome Polled → Type 0
Answers Allowed is (err e) = Allowed e
Answers Allowed is (ok (count, sts)) =
    All (λ (st : PollState). contains st.fd (map (λ (i : Interest). i.fd) is) ≡ true) sts

module _ {W N C : Type 0} (os : Openssl W) (sys : System W N) (client : PollClient C)
    (budget : W → ℕ) (tracked : ℕ → C → Bool) (Allowed : Error → Type 0)
    (tracks : IsTracking client tracked Allowed) (setting : Setting os sys budget Allowed) where
  -- The client knows exactly the connections, and the table is in order.
  pub record IsConsistent (p : Poller W N C) : Type 0 where
    pub holds : Holds sys client tracked Allowed tracks p
    pub ordered : IsOrdered p.handlers

  -- Whatever a call throws is allowed, and it leaves the poller consistent.
  pub record Succeeds (r : Result W N C Bool) : Type 0 where
    pub consistent : IsConsistent r.1
    pub throws : (e : Error) → r.0 ≡ err e → Allowed e

  kept-Succeeds :
      (p : Poller W N C) (r : Result W N C Bool)
      → IsKept sys client tracked Allowed tracks p r
      → IsConsistent p
      → Succeeds r
  kept-Succeeds p r k c = record {
    consistent = record { holds = k.valid; ordered = k.ordered c.ordered };
    throws = k.throws;
  }

  and_then-Succeeds :
      (r : Result W N C Bool) (f : Bool → Poller W N C → Result W N C Bool)
      → Succeeds r
      → ((b : Bool) (q : Poller W N C) → r ≡ (ok b, q) → IsConsistent q → Succeeds (f b q))
      → Succeeds (and_then r f)
  and_then-Succeeds (ok b, q) f s g = g b q refl s.consistent
  and_then-Succeeds (err e, q) f s g = s

  swallowed-Keeps :
      (p : Poller W N C) (r : Result W N C Bool)
      → IsKept sys client tracked Allowed tracks p r
      → IsKept sys client tracked Allowed tracks p (swallowed os sys client budget r)
  swallowed-Keeps p (ok b, q) k = k
  swallowed-Keeps p (err e, q) k = record {
    valid = ground (arith, k.valid);
    grows = ground (arith, k.grows);
    ordered = ground (arith, k.ordered);
    throws = ground (arith, k.throws);
  }

  interrupt-Keeps :
      (b : Bool) (p : Poller W N C)
      → Holds sys client tracked Allowed tracks p
      → IsKept sys client tracked Allowed tracks p (interrupt os sys client budget b p)
  unfolding interrupt
  interrupt-Keeps b p v =
      if_intro (IsKept sys client tracked Allowed tracks p) b _ _
        (swallowed-Keeps p _ (
          answer-Keeps tracked Allowed tracks.exceptions sys (client.on_interrupt p.client) p
            (told-Holds sys client tracked Allowed tracks _ p (λ k. tracks.on_interrupt k p.client)
              v)
            (tracks.interrupt_throws p.client)))
        (same-Keeps tracked Allowed tracks.exceptions p true v)

  after_poll-Succeeds :
      (b : Bool) (o : Outcome Polled) (p : Poller W N C)
      → Answers Allowed (make_poll_fds os p) o
      → IsConsistent p
      → Succeeds (after_poll os sys client budget b o p)
  unfolding after_poll make_poll_fds
  after_poll-Succeeds b (err e) p a c = record {
    consistent = c;
    throws = λ x k. subst Allowed (cc) a;
  }
  after_poll-Succeeds b (ok (count, sts)) p a c =
      let k = interrupt-Keeps b p c.holds in
      and_then-Succeeds _ _ (kept-Succeeds p _ k c) λ _ q e d.
        let present =
          All-imply _ (IsPresent os sys client budget tracked Allowed tracks setting q) sts
            (λ st h.
              subst (λ r. is_some (find st.fd r.1.handlers) ≡ true) e
                (k.grows st.fd (
                  sym (keys-find st.fd p.handlers)
                  ∙ sym (ap (contains st.fd) (interests_of-keys os p.handlers))
                  ∙ h)))
            a in
        let events =
          handle_events-Keeps os sys client budget tracked Allowed tracks setting count sts q
            present d.holds in
        and_then-Succeeds _ _ (kept-Succeeds q _ events d) λ _ r _ g.
          let gone =
            remove_closed_handlers-Removes os sys client budget tracked Allowed tracks r g.ordered
              g.holds in
          record {
            consistent = record { holds = gone.valid; ordered = gone.ordered };
            throws = gone.throws;
          }

  abbrev pub AllAnswered : List Round → Type 0
  AllAnswered = All (λ (r : Round). (is : List Interest) → Answers Allowed is (r.poll is))

  rounds-Succeeds :
      (rs : List Round) (p : Poller W N C)
      → AllAnswered rs
      → IsConsistent p
      → Succeeds (rounds os sys client budget rs p)
  unfolding rounds
  rounds-Succeeds [] p a c = record { consistent = c; throws = λ e k. cc }
  rounds-Succeeds (r ∷ rs) p a c =
      and_then-Succeeds _ _ (after_poll-Succeeds r.is_signalled _ p (a.0 (make_poll_fds os p)) c)
        (λ _ q _ d. rounds-Succeeds rs q a.1 d)

  -- A client that keeps track of the descriptors it is told of knows exactly the connections of
  -- the poller after any number of rounds of the event loop, the table of handlers stays in
  -- order, and whatever leaves the loop is an exception of the client, of `accept` or of `poll`,
  -- or one of the source: with clients that only throw exceptions the loop never dereferences a
  -- missing handler, never reads behind a buffer and never runs out of fuel.
  pub event_loop-Succeeds :
      (rs : List Round) (p : Poller W N C)
      → AllAnswered rs
      → IsConsistent p
      → Succeeds (event_loop os sys client budget rs p)
  unfolding event_loop
  event_loop-Succeeds rs p a c =
      and_then-Succeeds _ _
        (kept-Succeeds p _
          (answer-Keeps tracked Allowed tracks.exceptions sys (client.on_startup p.client) p
            (told-Holds sys client tracked Allowed tracks _ p (λ k. tracks.on_startup k p.client)
              c.holds)
            (tracks.startup_throws p.client))
          c)
        (λ _ q _ d. rounds-Succeeds rs q a d)
