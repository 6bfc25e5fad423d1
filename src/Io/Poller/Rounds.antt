-- ===== src/Io/Poller/Rounds.antt =====
-- The rounds of the event loop keep the invariant, and find a handler for every event.
use cpp_prototype.Common.{
  ℕ, suc, ◌-◌, ◌<◌, ◌≡◌, refl, sym, ap, subst, ◌∙◌, Bool, true, ◌==◌, if◌then◌else◌, if_intro, List,
  [], ◌∷◌, Bytes, Option, none, some, length, ok, err, Error, undefined, All, All-imply, arith,
}
use cpp_prototype.Common.Key.{ℕ_key}
use cpp_prototype.Common.Map.{find, is_some}
use cpp_prototype.Io.Ssl.{Openssl}
use cpp_prototype.Io.Transport.Reading.{Receives}
use cpp_prototype.Io.Transport.Writing.{Sends}
use cpp_prototype.Io.TcpSocketPollHandler
use cpp_prototype.Io.TcpSocketPollHandler.{TcpSocketPollHandler}
use cpp_prototype.Io.TcpSocketPollHandler.Pending.{pending, InBounds}
use cpp_prototype.Io.TcpSocketPollHandler.Receiving.{read-IsReceived}
use cpp_prototype.Io.TcpSocketPollHandler.Sending.{write-IsConserved}
use cpp_prototype.Io.PollHandler.{PollHandler, listener, connection, and_buf, dequeue_all}
use cpp_prototype.Io.Poller.{
  System, PollClient, Poller, PollState, Result, and_then, set_handler, read_listener, tell_read,
  after_dequeue, after_read,
}
use cpp_prototype.Io.Poller.Invariant.{
  IsBounded, IsTracking, same-Keeps, and_then-Keeps, set_handler-Keeps,
}
use cpp_prototype.Io.Poller.Callbacks.{
  IsKept, Holds, told-Holds, answer-Keeps, read_listener-Keeps, caught-Keeps,
}
use cpp_prototype.Io.Poller.EventLoop.{
  handle_read, handle_write, write_if, handle_event, handle_events,
}

dequeue_all-cons :
    {W : Type 0} (n : ℕ) (buf : Bytes) (q : List Bytes) (h : TcpSocketPollHandler W)
    → h.read_queue ≡ buf ∷ q
    → dequeue_all (suc n) h ≡ and_buf buf (dequeue_all n (record h { read_queue = q }))
unfolding dequeue_all TcpSocketPollHandler.dequeue
dequeue_all-cons n buf q h e = ground (arith, e)

-- The read queue is emptied into the list of its buffers.
dequeue_all-eq :
    {W : Type 0} (q : List Bytes) (h : TcpSocketPollHandler W)
    → h.read_queue ≡ q
    → dequeue_all (suc (length q)) h ≡ (ok q, record h { read_queue = [] })
unfolding dequeue_all TcpSocketPollHandler.dequeue
dequeue_all-eq [] h e = ground (arith, e)
dequeue_all-eq (buf ∷ q) h e =
    dequeue_all-cons (suc (length q)) buf q h e
    ∙ ap (and_buf buf) (dequeue_all-eq q (record h { read_queue = q }) refl)

-- What the poller relies on: the views of a connection, enough fuel for what it can give out, and
-- what `accept` throws.
pub record Setting {W N : Type 0} (os : Openssl W) (sys : System W N) (budget : W → ℕ)
    (Allowed : Error → Type 0) : Type 0 where
  pub sent : W → Bytes
  pub sends : Sends os sent
  pub unread : W → Bytes
  pub receives : Receives os unread
  pub enough : (w : W) → length (unread w) < budget w
  pub accept_throws : (fd : ℕ) (n : N) (e : Error) → (sys.accept fd n).0 ≡ err e → Allowed e

module _ {W N C : Type 0} (os : Openssl W) (sys : System W N) (client : PollClient C)
    (budget : W → ℕ) (tracked : ℕ → C → Bool) (Allowed : Error → Type 0)
    (tracks : IsTracking client tracked Allowed) (setting : Setting os sys budget Allowed) where
  abbrev Kept : Poller W N C → Result W N C Bool → Type 0
  Kept = IsKept sys client tracked Allowed tracks

  abbrev Valid : Poller W N C → Type 0
  Valid = Holds sys client tracked Allowed tracks

  tell_read-Keeps :
      (b : Bool) (fd : ℕ) (bufs : List Bytes) (p : Poller W N C)
      → Valid p
      → Kept p (tell_read sys client b fd bufs p)
  tell_read-Keeps b fd [] p v = same-Keeps tracked Allowed tracks.exceptions p b v
  tell_read-Keeps b fd (buf ∷ bufs) p v =
      and_then-Keeps tracked Allowed tracks.exceptions p _ _
        (answer-Keeps tracked Allowed tracks.exceptions sys
          (client.on_read fd (buf ∷ bufs) p.client) p
          (told-Holds sys client tracked Allowed tracks _ p
            (λ k. tracks.on_read k fd (buf ∷ bufs) p.client) v)
          (tracks.read_throws fd (buf ∷ bufs) p.client))
        (λ c q e w. same-Keeps tracked Allowed tracks.exceptions q b w)

  after_read-Keeps :
      (b : Bool) (fd : ℕ) (h k : TcpSocketPollHandler W) (p : Poller W N C)
      → find fd p.handlers ≡ some (connection h)
      → InBounds k.write_queue
      → Valid p
      → Kept p (after_read sys client fd (ok b, k) p)
  after_read-Keeps b fd h k p e i v =
      subst (λ r. Kept p (after_dequeue sys client b fd r p))
        (sym (dequeue_all-eq k.read_queue k refl))
        (let k' = record k { read_queue = [] } in
          and_then-Keeps tracked Allowed tracks.exceptions p
            (ok true, set_handler fd (connection k') p)
            (λ _. tell_read sys client b fd k.read_queue)
            (set_handler-Keeps tracked Allowed tracks.exceptions fd (connection h) (connection k') p
              (ok true) e refl i (λ x q. cc) v)
            (λ _ q x w. tell_read-Keeps b fd k.read_queue q w))

  handle_read-Keeps :
      (fd : ℕ) (h : TcpSocketPollHandler W) (p : Poller W N C)
      → find fd p.handlers ≡ some (connection h)
      → Valid p
      → Kept p (handle_read os sys client budget fd h p)
  unfolding handle_read
  handle_read-Keeps fd h p e v =
      let r = TcpSocketPollHandler.read os (budget h.stream.bio) h in
      let (o, same_input, same_writes) =
        read-IsReceived os setting.unread setting.receives (budget h.stream.bio) h
          (setting.enough h.stream.bio) in
      let bound : InBounds h.write_queue = subst IsBounded e (v fd).1 in
      caught-Keeps sys client tracked Allowed tracks fd p (after_read sys client fd r p) (
        subst (λ x. Kept p (after_read sys client fd (x, r.1) p)) (sym o)
          (after_read-Keeps _ fd h r.1 p e (subst InBounds (sym same_writes) bound) v))

  handle_write-Keeps :
      (fd : ℕ) (h : TcpSocketPollHandler W) (p : Poller W N C)
      → find fd p.handlers ≡ some (connection h)
      → Valid p
      → Kept p (handle_write os sys client budget fd h p)
  unfolding handle_write
  handle_write-Keeps fd h p e v =
      let c =
        write-IsConserved os setting.sent setting.sends (suc (length (pending h.write_queue))) h
          (subst IsBounded e (v fd).1) (omega arith) in
      caught-Keeps sys client tracked Allowed tracks fd p _ (
        set_handler-Keeps tracked Allowed tracks.exceptions fd (connection h) (connection _) p _ e
          refl c.in_bounds (λ x k. tracks.exceptions x (c.throws x k)) v)

  -- The handler of an event is in the table.
  abbrev pub IsPresent : Poller W N C → PollState → Type 0
  IsPresent p st = is_some (find st.fd p.handlers) ≡ true

  write_if-Keeps :
      (st : PollState) (p : Poller W N C)
      → IsPresent p st
      → Valid p
      → Kept p (write_if os sys client budget st p)
  unfolding write_if
  write_if-Keeps st p i v =
      if_intro (Kept p) st.is_out _ _ (wrote (find st.fd p.handlers) refl)
        (same-Keeps tracked Allowed tracks.exceptions p true v)
    where
      wrote :
          (o : Option (PollHandler W))
          → find st.fd p.handlers ≡ o
          → Kept p (elim o [
            | none ↦ (err undefined, p)
            | some (listener l) ↦ (ok true, p)
            | some (connection h) ↦ handle_write os sys client budget st.fd h p
          ])
      wrote none e = absurd cc
      wrote (some (listener l)) e = same-Keeps tracked Allowed tracks.exceptions p true v
      wrote (some (connection h)) e = handle_write-Keeps st.fd h p e v

  handle_event-Keeps :
      (st : PollState) (p : Poller W N C)
      → IsPresent p st
      → Valid p
      → Kept p (handle_event os sys client budget st p)
  unfolding handle_event
  handle_event-Keeps st p i v = handled (find st.fd p.handlers) refl
    where
      handled :
          (o : Option (PollHandler W))
          → find st.fd p.handlers ≡ o
          → Kept p (elim o [
            | none ↦ (err undefined, p)
            | some (listener l) ↦
                if st.is_in
                then read_listener sys client st.fd l p
                else write_if os sys client budget st p
            | some (connection h) ↦
                if st.is_in
                then (and_then
                    (handle_read os sys client budget st.fd h p)
                    λ go_on q. if go_on then write_if os sys client budget st q else (ok true, q))
                else write_if os sys client budget st p
          ])
      handled none e = absurd cc
      handled (some (listener l)) e =
          if_intro (Kept p) st.is_in _ _
            (read_listener-Keeps sys client tracked Allowed tracks st.fd l p
              (setting.accept_throws st.fd p.system) v)
            (write_if-Keeps st p i v)
      handled (some (connection h)) e =
          let k = handle_read-Keeps st.fd h p e v in
          if_intro (Kept p) st.is_in _ _
            (and_then-Keeps tracked Allowed tracks.exceptions p _ _ k λ b q x w.
              if_intro (Kept q) b _ _
                (write_if-Keeps st q
                  (subst (λ r. is_some (find st.fd r.1.handlers) ≡ true) x (k.grows st.fd i)) w)
                (same-Keeps tracked Allowed tracks.exceptions q true w))
            (write_if-Keeps st p i v)

  grows-IsPresent :
      (sts : List PollState) (p q : Poller W N C)
      → ((fd : ℕ) → is_some (find fd p.handlers) ≡ true → is_some (find fd q.handlers) ≡ true)
      → All (IsPresent p) sts
      → All (IsPresent q) sts
  grows-IsPresent sts p q g a = All-imply (IsPresent p) (IsPresent q) sts (λ st. g st.fd) a

  pub handle_events-Keeps :
      (count : ℕ) (sts : List PollState) (p : Poller W N C)
      → All (IsPresent p) sts
      → Valid p
      → Kept p (handle_events os sys client budget count sts p)
  unfolding handle_events
  handle_events-Keeps count [] p a v = same-Keeps tracked Allowed tracks.exceptions p true v
  handle_events-Keeps count (st ∷ sts) p a v =
      let k = handle_event-Keeps st p a.0 v in
      if_intro (Kept p) st.is_active _ _
        (and_then-Keeps tracked Allowed tracks.exceptions p _ _ k λ b q x w.
          if_intro (Kept q) (count == 1) _ _ (same-Keeps tracked Allowed tracks.exceptions q true w)
            (handle_events-Keeps (count - 1) sts q
              (grows-IsPresent sts p q
                (λ fd h. subst (λ r. is_some (find fd r.1.handlers) ≡ true) x (k.grows fd h)) a.1)
              w))
        (handle_events-Keeps count sts p a.1 v)
