-- ===== src/Io/Poller/Refusal.antt =====
-- An exception of `accept`, which nothing catches.
use cpp_prototype.Common.{ℕ, ◌≡◌, true, false, List, ◌∷◌, some, ok, err, Error, arith}
use cpp_prototype.Common.Key.{ℕ_key}
use cpp_prototype.Common.Map.{find}
use cpp_prototype.Io.Ssl.{Openssl}
use cpp_prototype.Io.PollHandler.{listener, TcpListenerPollHandler}
use cpp_prototype.Io.Poller.{System, PollClient, Poller, PollState, read_listener}
use cpp_prototype.Io.Poller.EventLoop.{
  Round, make_poll_fds, handle_event, handle_events, interrupt, after_poll, rounds,
}

-- A listener that is ready, and whose `accept` throws.
pub record IsRefused {W N C : Type 0} (os : Openssl W) (sys : System W N) (p : Poller W N C)
    (r : Round) (e : Error) : Type 0 where
  pub quiet : r.is_signalled ≡ false
  pub count : ℕ
  pub st : PollState
  pub sts : List PollState
  pub polled : r.poll (make_poll_fds os p) ≡ ok (count, st ∷ sts)
  pub is_active : st.is_active ≡ true
  pub is_in : st.is_in ≡ true
  pub l : TcpListenerPollHandler
  pub found : find st.fd p.handlers ≡ some (listener l)
  pub refused : (sys.accept st.fd p.system).0 ≡ err e

module _ {W N C : Type 0} (os : Openssl W) (sys : System W N) (client : PollClient C)
    (budget : W → ℕ) where
  refused-event :
      (st : PollState) (l : TcpListenerPollHandler) (p : Poller W N C) (e : Error)
      → find st.fd p.handlers ≡ some (listener l)
      → st.is_in ≡ true
      → (sys.accept st.fd p.system).0 ≡ err e
      → handle_event os sys client budget st p
        ≡ (err e, record p { system = (sys.accept st.fd p.system).1 })
  unfolding handle_event read_listener
  refused-event st l p e f i a = ground (arith, f, i, a)

  -- Where the first active descriptor of a round without a signal is a listener's, and `accept`
  -- throws: the event loop ends with that exception, whatever rounds were to come, and no handler
  -- is touched.
  pub refused-rounds :
      (r : Round) (rs : List Round) (p : Poller W N C) (e : Error)
      (refusal : IsRefused os sys p r e)
      → rounds os sys client budget (r ∷ rs) p
        ≡ (err e, record p { system = (sys.accept refusal.st.fd p.system).1 })
  unfolding rounds after_poll interrupt handle_events
  refused-rounds r rs p e refusal = ground (
    arith,
    refusal.quiet,
    refusal.polled,
    refusal.is_active,
    refused-event refusal.st refusal.l p e refusal.found refusal.is_in refusal.refused,
  )
