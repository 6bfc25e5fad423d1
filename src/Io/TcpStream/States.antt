-- ===== src/Io/TcpStream/States.antt =====
-- The states of a stream: which follow which, and what `read` and `write` report in them.
use cpp_prototype.Common.{
  ℕ, ◌≤◌, ◌≡◌, ◌≢◌, refl, Bool, true, false, Bytes, Option, none, some, Outcome, ok, err, arith,
}
use cpp_prototype.Io.Ssl.{Openssl, Transfer, transferred, eof, blocked}
use cpp_prototype.Io.TcpStream.{
  State, start, handshake, data_, shutdown, stop, TcpStream, Result, do_handshake, handle_shutdown,
  handle_client_faulted, unless_returned, handshake_first, shutdown_first, after_read, read_bio,
  read, after_write, write_bio, write,
}

-- A stream in the clear stays at its start, one under TLS has left it, and a stopped one is closed.
pub record IsValid {W : Type 0} (s : TcpStream W) : Type 0 where
  pub plain : s.has_ssl ≡ false → s.state ≡ start
  pub secure : s.has_ssl ≡ true → s.state ≢ start
  pub stopped : s.state ≡ stop → s.is_open ≡ false

-- The position of a state on the way from the handshake to the stop.
abbrev pub rank : State → ℕ
rank start = 0
rank handshake = 1
rank data_ = 2
rank shutdown = 3
rank stop = 4

-- What a caller may rely on after a call on the stream `s`.
pub record Follows {W : Type 0} (s s' : TcpStream W) : Type 0 where
  pub valid : IsValid s'
  pub same_ssl : s'.has_ssl ≡ s.has_ssl
  pub same_verify : s'.should_verify ≡ s.should_verify
  pub forward : rank s.state ≤ rank s'.state

-- `eof` is reported exactly where the socket has been closed, and a transfer only in the clear or
-- once the handshake is done.
abbrev pub Reports {ℓ} : {W : Type 0} {A : Type ℓ} → Outcome (Transfer A) → TcpStream W → Type 0
Reports (err e) s = Unit {0}
Reports (ok eof) s = s.is_open ≡ false
Reports (ok blocked) s = s.is_open ≡ true
Reports (ok (transferred a)) s = (s.is_open ≡ true) × (s.has_ssl ≡ true → s.state ≡ data_)

module _ {W : Type 0} (os : Openssl W) where
  -- A call that says whether it is done, closed where it is.
  abbrev Shuts : TcpStream W → Result W Bool → Type 0
  Shuts s (o, s') =
      Follows s s' × (o ≡ ok true → s'.is_open ≡ false) × (o ≡ ok false → s'.is_open ≡ true)

  handle_shutdown_lem :
      (s : TcpStream W)
      → s.has_ssl ≡ true
      → s.state ≡ shutdown
      → s.is_open ≡ true
      → Shuts s (handle_shutdown os s)
  unfolding handle_shutdown
  handle_shutdown_lem s h k o = ground arith

  do_handshake_lem :
      (s : TcpStream W)
      → IsValid s
      → s.is_open ≡ true
      → s.state ≡ handshake
      → Follows s (do_handshake os s).1
        × ((do_handshake os s).1.is_open ≡ true)
        × ((do_handshake os s).0 ≡ ok true → (do_handshake os s).1.state ≡ data_)
  unfolding do_handshake
  do_handshake_lem s v o n = ground (arith, v.plain)

  after_read-Reports :
      (buf : Option Bytes) (s : TcpStream W)
      → IsValid s
      → s.is_open ≡ true
      → s.state ≢ handshake
      → s.state ≢ shutdown
      → Follows s (after_read os buf s).1 × Reports (after_read os buf s).0 (after_read os buf s).1
  unfolding after_read handle_client_faulted
  after_read-Reports none s v o n m =
      ground (arith, handle_shutdown_lem (record s { state = shutdown }))
  after_read-Reports (some buf) s v o n m = ground arith

  Follows-trans : {s t u : TcpStream W} → Follows s t → Follows t u → Follows s u
  Follows-trans f g = record {
    valid = g.valid;
    same_ssl = cc;
    same_verify = cc;
    forward = omega (arith, f.forward, g.forward);
  }

  -- A test at the beginning of `read` and `write`: where it does not return, the stream is open and
  -- its state satisfies `P`.
  record Passes {ℓ} {A : Type ℓ} (P : State → Type 0) (s : TcpStream W)
      (r : Result W (Option (Transfer A))) : Type ℓ where
    follows : Follows s r.1
    goes_on : r.0 ≡ ok none → (r.1.is_open ≡ true) × P r.1.state
    returns : (t : Transfer A) → r.0 ≡ ok (some t) → Reports (ok t) r.1

  handshake_first-Passes {ℓ} :
      {A : Type ℓ} (s : TcpStream W)
      → IsValid s
      → s.is_open ≡ true
      → Passes {A = A} (λ q. q ≢ handshake) s (handshake_first os s)
  unfolding handshake_first
  handshake_first-Passes s v o = record {
    follows = ground (arith, do_handshake_lem s);
    goes_on = λ e. ground (arith, do_handshake_lem s);
    returns = λ t e. ground (arith, do_handshake_lem s);
  }

  shutdown_first-Passes {ℓ} :
      {A : Type ℓ} (s : TcpStream W)
      → IsValid s
      → s.is_open ≡ true
      → s.state ≢ handshake
      → Passes {A = A} (λ q. (q ≢ handshake) × (q ≢ shutdown)) s (shutdown_first os s)
  unfolding shutdown_first
  shutdown_first-Passes s v o n = record {
    follows = ground (arith, handle_shutdown_lem s);
    goes_on = λ e. ground (arith, handle_shutdown_lem s);
    returns = λ t e. ground (arith, handle_shutdown_lem s);
  }

  abbrev pub IsReported {ℓ} : {A : Type ℓ} → TcpStream W → Result W (Transfer A) → Type 0
  IsReported s (o, s') = Follows s s' × Reports o s'

  Passes-IsReported {ℓ} :
      {A : Type ℓ} (P : State → Type 0) (s : TcpStream W) (r : Result W (Option (Transfer A)))
      (rest : TcpStream W → Result W (Transfer A))
      → Passes P s r
      → ((t : TcpStream W) → IsValid t → t.is_open ≡ true → P t.state → IsReported t (rest t))
      → IsReported s (unless_returned r rest)
  Passes-IsReported P s (ok none, t) rest p f =
      let g = p.goes_on refl in
      let q = f t p.follows.valid g.0 g.1 in (Follows-trans p.follows q.0, q.1)
  Passes-IsReported P s (ok (some x), t) rest p f = (p.follows, p.returns x refl)
  Passes-IsReported P s (err e, t) rest p f = (p.follows, tt)

  after_write-Reports :
      (n : Option ℕ) (s : TcpStream W)
      → IsValid s
      → s.is_open ≡ true
      → s.state ≢ handshake
      → s.state ≢ shutdown
      → IsReported s (after_write os n s)
  unfolding after_write handle_client_faulted
  after_write-Reports n s v o k m = ground arith

  with_bio-IsReported {ℓ} :
      {A : Type ℓ} (s : TcpStream W) (w : W) (r : Result W (Transfer A))
      → IsReported (record s { bio = w }) r
      → IsReported s r
  with_bio-IsReported s w (o, t) (f, h) = (
    record {
      valid = f.valid;
      same_ssl = f.same_ssl;
      same_verify = f.same_verify;
      forward = f.forward;
    },
    h,
  )

  read-IsReported :
      (len : ℕ) (s : TcpStream W) → IsValid s → s.is_open ≡ true → IsReported s (read os len s)
  unfolding read read_bio
  read-IsReported len s v o = Passes-IsReported _ s _ _ (handshake_first-Passes s v o) λ t w p n.
      Passes-IsReported _ t _ _ (shutdown_first-Passes t w p n) λ u x q m.
        let u' = record u { bio = (os.read_ex len u.bio).1 } in
        with_bio-IsReported u _ _ (
          after_read-Reports (os.read_ex len u.bio).0 u'
            (record { plain = x.plain; secure = x.secure; stopped = x.stopped }) q m.0 m.1)

  write-IsReported :
      (buf : Bytes) (s : TcpStream W) → IsValid s → s.is_open ≡ true → IsReported s (write os buf s)
  unfolding write write_bio
  write-IsReported buf s v o = Passes-IsReported _ s _ _ (handshake_first-Passes s v o) λ t w p n.
      Passes-IsReported _ t _ _ (shutdown_first-Passes t w p n) λ u x q m.
        let u' = record u { bio = (os.write_ex buf u.bio).1 } in
        with_bio-IsReported u _ _ (
          after_write-Reports (os.write_ex buf u.bio).0 u'
            (record { plain = x.plain; secure = x.secure; stopped = x.stopped }) q m.0 m.1)

  -- After `read` and after `write` on an open stream in a valid state: the state is valid again
  -- and has not gone back on its way from the handshake over the data to the shutdown and the
  -- stop; and where nothing is thrown, the end of the stream is reported exactly where the socket
  -- has been closed, and a transfer under TLS only in the state for data.
  pub transfer-IsReported :
      (len : ℕ) (buf : Bytes) (s : TcpStream W)
      → IsValid s
      → s.is_open ≡ true
      → IsReported s (read os len s) × IsReported s (write os buf s)
  transfer-IsReported len buf s v o = (read-IsReported len s v o, write-IsReported buf s v o)
