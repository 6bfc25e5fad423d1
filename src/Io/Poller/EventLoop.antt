-- ===== src/Io/Poller/EventLoop.antt =====
-- src/io/poller.hpp: `handle_event`, the rounds of `event_loop`, and the removal of closed handlers.
use cpp_prototype.Common.{
  ℕ, suc, ◌-◌, Bool, true, ◌==◌, if◌then◌else◌, List, [], ◌∷◌, none, some, length, Outcome, ok, err,
  undefined, out_of_fuel, terminated,
}
use cpp_prototype.Common.Key.{ℕ_key}
use cpp_prototype.Common.Map.{Map, find, erase}
use cpp_prototype.Io.Ssl.{Openssl}
use cpp_prototype.Io.TcpSocketPollHandler
use cpp_prototype.Io.TcpSocketPollHandler.{TcpSocketPollHandler}
use cpp_prototype.Io.TcpSocketPollHandler.Pending.{pending}
use cpp_prototype.Io.PollHandler
use cpp_prototype.Io.PollHandler.{
  PollHandler, listener, connection, TcpListenerPollHandler, is_listener,
}
use cpp_prototype.Io.Poller.{
  System, PollClient, Poller, Interest, PollState, Result, and_then, set_handler,
  find_closed_handler_fds, answer, read_listener, caught, after_read,
}

-- What a call of `poll` gives: the number of active descriptors, and the states.
abbrev pub Polled : Type 0
Polled = ℕ × List PollState

-- A round of the loop: whether a signal has come, and what `poll` gives for the descriptors.
pub record Round : Type 0 where
  pub is_signalled : Bool
  pub poll : List Interest → Outcome Polled

abbrev pub interests_of : {W : Type 0} → Openssl W → Map ℕ (PollHandler W) → List Interest
interests_of os [] = []
interests_of os ((fd, h) ∷ m) =
    record {
      fd = fd;
      wants_in = PollHandler.want_read os h;
      wants_out = PollHandler.want_write os h;
    }
    ∷ interests_of os m

unfoldable pub make_poll_fds : {W N C : Type 0} → Openssl W → Poller W N C → List Interest
make_poll_fds os p = interests_of os p.handlers

module _ {W N C : Type 0} (os : Openssl W) (sys : System W N) (client : PollClient C)
    (budget : W → ℕ) where
  -- The fuel of the loop of `read` is the budget of the connection's state.
  unfoldable pub handle_read : ℕ → TcpSocketPollHandler W → Poller W N C → Result W N C Bool
  handle_read fd h p =
      let r = TcpSocketPollHandler.read os (budget h.stream.bio) h in
      caught sys client fd (after_read sys client fd r p)

  unfoldable pub handle_write : ℕ → TcpSocketPollHandler W → Poller W N C → Result W N C Bool
  handle_write fd h p =
      let (o, h') = TcpSocketPollHandler.write os (suc (length (pending h.write_queue))) h in
      caught sys client fd (o, set_handler fd (connection h') p)

  -- The second half of `handle_event`. A listener's `write` returns false.
  unfoldable pub write_if : PollState → Poller W N C → Result W N C Bool
  write_if st p =
      let wrote : Result W N C Bool = elim (find st.fd p.handlers) [
        | none ↦ (err undefined, p)
        | some (listener l) ↦ (ok true, p)
        | some (connection h) ↦ handle_write st.fd h p
      ] in
      if st.is_out then wrote else (ok true, p)

  -- `handlers_[fd]` adds a null pointer where there is no handler.
  unfoldable pub handle_event : PollState → Poller W N C → Result W N C Bool
  handle_event st p = elim (find st.fd p.handlers) [
    | none ↦ (err undefined, p)
    | some (listener l) ↦ if st.is_in then read_listener sys client st.fd l p else write_if st p
    | some (connection h) ↦
        let read_first =
          and_then (handle_read st.fd h p)
            λ go_on q. if go_on then write_if st q else (ok true, q) in
        if st.is_in then read_first else write_if st p
  ]

  -- The loop over the states, which stops once the active ones have been counted down to 0.
  unfoldable pub handle_events : ℕ → List PollState → Poller W N C → Result W N C Bool
  handle_events count [] p = (ok true, p)
  handle_events count (st ∷ sts) p =
      let skip = handle_events count sts p in
      let handled = and_then (handle_event st p) λ _ q.
        let rest = handle_events (count - 1) sts q in if count == 1 then (ok true, q) else rest in
      if st.is_active then handled else skip

  -- `handler` is moved out of the table before the client is told.
  unfoldable pub remove_handlers : List ℕ → Poller W N C → Result W N C Bool
  remove_handlers [] p = (ok true, p)
  remove_handlers (fd ∷ fds) p =
      let q = record p { handlers = erase fd p.handlers } in
      elim (find fd p.handlers) [
        | none ↦ (err undefined, q)
        | some h ↦
            if is_listener h
            then remove_handlers fds q
            else and_then (answer sys (client.on_close fd q.client) q) λ _. remove_handlers fds
      ]

  unfoldable pub remove_closed_handlers : Poller W N C → Result W N C Bool
  remove_closed_handlers p = remove_handlers (find_closed_handler_fds p) p

  -- `catch (...)` around `on_interrupt`; what ends the program is not caught.
  abbrev pub swallowed : Result W N C Bool → Result W N C Bool
  swallowed (ok b, p) = (ok b, p)
  swallowed (err undefined, p) = (err undefined, p)
  swallowed (err out_of_fuel, p) = (err out_of_fuel, p)
  swallowed (err terminated, p) = (err terminated, p)
  swallowed (err e, p) = (ok true, p)

  unfoldable pub interrupt : Bool → Poller W N C → Result W N C Bool
  interrupt is_signalled p =
      if is_signalled then swallowed (answer sys (client.on_interrupt p.client) p) else (ok true, p)

  -- What a round does with what `poll` has given.
  unfoldable pub after_poll : Bool → Outcome Polled → Poller W N C → Result W N C Bool
  after_poll is_signalled (err e) p = (err e, p)
  after_poll is_signalled (ok (count, sts)) p =
      and_then (interrupt is_signalled p)
        λ _ q. and_then (handle_events count sts q) λ _. remove_closed_handlers

  unfoldable pub rounds : List Round → Poller W N C → Result W N C Bool
  rounds [] p = (ok true, p)
  rounds (r ∷ rs) p =
      and_then (after_poll r.is_signalled (r.poll (make_poll_fds os p)) p) λ _. rounds rs

  -- `event_loop`, for as many rounds as there are.
  unfoldable pub event_loop : List Round → Poller W N C → Result W N C Bool
  event_loop rs p = and_then (answer sys (client.on_startup p.client) p) λ _. rounds rs
