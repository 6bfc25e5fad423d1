-- ===== src/Io/TcpStream.antt =====
-- src/io/tcp_stream.hpp: a socket, in the clear or under TLS, as a state machine.
pub mod Handshake
pub mod States
use cpp_prototype.Common.{
  ℕ, zero, suc, Bool, true, false, not, ◌&&◌, ◌||◌, ◌==◌, if◌then◌else◌, Bytes, Option, none, some,
  length, Outcome, ok, err, invalid_state, write_failed,
}
use cpp_prototype.Common.Int.{pos}
use cpp_prototype.Io.Ssl.{
  Openssl, SslError, zero_return, Attempt, completed, would_block, Transfer, transferred, eof,
  blocked, ssl_do_handshake, ssl_shutdown, ssl_verify,
}

pub data State : Type 0 where
  start handshake data_ shutdown stop : State

-- `bio` is the state of the connection, `has_ssl` whether `bio_.ssl` has a value, and `is_open` the
-- flag of the socket.
pub record TcpStream (W : Type 0) : Type 0 where
  pub bio : W
  pub has_ssl : Bool
  pub should_verify : Bool
  pub state : State
  pub is_open : Bool

-- The constructors: in the clear, and under TLS. Only a client's stream verifies its peer.
abbrev pub make_plain : {W : Type 0} → W → Bool → TcpStream W
make_plain w should_verify = record {
  bio = w;
  has_ssl = false;
  should_verify = should_verify;
  state = start;
  is_open = true;
}

abbrev pub make_ssl : {W : Type 0} → W → Bool → TcpStream W
make_ssl w is_client = record (make_plain w is_client) { has_ssl = true; state = handshake }

abbrev pub is_handshake : State → Bool
is_handshake handshake = true
is_handshake _ = false

abbrev pub is_data : State → Bool
is_data data_ = true
is_data _ = false

abbrev pub is_shutdown : State → Bool
is_shutdown shutdown = true
is_shutdown _ = false

abbrev pub is_stop : State → Bool
is_stop stop = true
is_stop _ = false

abbrev is_zero_return : SslError → Bool
is_zero_return zero_return = true
is_zero_return _ = false

-- What a call returns or throws, and the stream after it.
abbrev pub Result {ℓ} : Type 0 → Type ℓ → Type ℓ
Result W A = Outcome A × TcpStream W

-- The rest of a function, where it has neither returned nor thrown.
abbrev pub unless_returned {ℓ} :
    {W : Type 0} {A : Type ℓ} → Result W (Option A) → (TcpStream W → Result W A) → Result W A
unless_returned (ok none, s) rest = rest s
unless_returned (ok (some a), s) rest = (ok a, s)
unless_returned (err e, s) rest = (err e, s)

module _ {W : Type 0} (os : Openssl W) where
  unfoldable pub want_read : TcpStream W → Bool
  want_read s = os.should_read s.bio

  unfoldable pub want_write : TcpStream W → Bool
  want_write s = os.should_write s.bio

  -- `verify`, once the handshake is done
  abbrev verify_if : Bool → TcpStream W → Result W Bool
  verify_if true s = (ssl_verify os s.bio, s)
  verify_if false s = (ok true, s)

  abbrev handshaken : Outcome Attempt → TcpStream W → Result W Bool
  handshaken (err e) s = (err e, s)
  handshaken (ok would_block) s = (ok false, s)
  handshaken (ok (completed false)) s = (ok false, s)
  handshaken (ok (completed true)) s = verify_if s.should_verify (record s { state = data_ })

  unfoldable pub do_handshake : TcpStream W → Result W Bool
  do_handshake s =
      let (o, w) = ssl_do_handshake os s.bio in
      if not s.has_ssl || not (is_handshake s.state)
      then (ok true, s)
      else handshaken o (record s { bio = w })

  abbrev shut_down : Outcome Attempt → TcpStream W → Result W Bool
  shut_down (err e) s = (err e, s)
  shut_down (ok would_block) s = (ok false, s)
  shut_down (ok (completed false)) s = (ok false, s)
  shut_down (ok (completed true)) s = (ok true, record s { is_open = false; state = stop })

  unfoldable pub handle_shutdown : TcpStream W → Result W Bool
  handle_shutdown s =
      let (o, w) = ssl_shutdown os s.bio in
      if not s.has_ssl
      then (ok true, record s { state = stop })
      else shut_down o (record s { bio = w })

  -- `do_shutdown`, once DATA has become SHUTDOWN
  abbrev shutdown_from : TcpStream W → Result W Bool
  shutdown_from s =
      if is_stop s.state
      then (ok true, s)
      else if not (is_shutdown s.state)
      then (err invalid_state, s)
      else if not s.has_ssl
      then (ok true, record s { state = stop })
      else handle_shutdown s

  unfoldable pub do_shutdown : TcpStream W → Result W Bool
  do_shutdown s = shutdown_from (if is_data s.state then record s { state = shutdown } else s)

  unfoldable pub handle_client_faulted : TcpStream W → TcpStream W
  handle_client_faulted s =
      if s.has_ssl then record s { bio = os.set_quiet_shutdown true s.bio } else s

  -- The two tests that `read` and `write` begin with.
  abbrev blocked_unless {ℓ} : {A : Type ℓ} → Result W Bool → Result W (Option (Transfer A))
  blocked_unless (ok true, s) = (ok none, s)
  blocked_unless (ok false, s) = (ok (some blocked), s)
  blocked_unless (err e, s) = (err e, s)

  abbrev eof_or_blocked {ℓ} : {A : Type ℓ} → Result W Bool → Result W (Transfer A)
  eof_or_blocked (ok true, s) = (ok eof, s)
  eof_or_blocked (ok false, s) = (ok blocked, s)
  eof_or_blocked (err e, s) = (err e, s)

  abbrev eof_or_go_on {ℓ} : {A : Type ℓ} → Result W Bool → Result W (Option (Transfer A))
  eof_or_go_on (ok true, s) = (ok (some eof), s)
  eof_or_go_on (ok false, s) = (ok (some blocked), s)
  eof_or_go_on (err e, s) = (err e, s)

  unfoldable pub handshake_first {ℓ} : {A : Type ℓ} → TcpStream W → Result W (Option (Transfer A))
  handshake_first s = if is_handshake s.state then blocked_unless (do_handshake s) else (ok none, s)

  unfoldable pub shutdown_first {ℓ} : {A : Type ℓ} → TcpStream W → Result W (Option (Transfer A))
  shutdown_first s = if is_shutdown s.state then eof_or_go_on (handle_shutdown s) else (ok none, s)

  -- What `read` does after BIO_read_ex, on the stream with the state of the connection after it.
  unfoldable pub after_read : Option Bytes → TcpStream W → Result W (Transfer Bytes)
  after_read none s =
      if os.should_retry s.bio
      then (ok blocked, s)
      else if s.has_ssl && is_zero_return (os.get_error (pos 0) s.bio)
      then eof_or_blocked (handle_shutdown (record s { state = shutdown }))
      else (ok eof, record (handle_client_faulted s) { is_open = false })
  after_read (some buf) s =
      if length buf == 0 then (ok eof, record s { is_open = false }) else (ok (transferred buf), s)

  unfoldable pub read_bio : ℕ → TcpStream W → Result W (Transfer Bytes)
  read_bio len s = let (buf, w) = os.read_ex len s.bio in after_read buf (record s { bio = w })

  unfoldable pub read : ℕ → TcpStream W → Result W (Transfer Bytes)
  read len s =
      unless_returned (handshake_first s) λ s1. unless_returned (shutdown_first s1) (read_bio len)

  -- What `write` does after BIO_write_ex.
  unfoldable pub after_write : Option ℕ → TcpStream W → Result W (Transfer ℕ)
  after_write none s =
      if not (os.should_retry s.bio)
      then (err write_failed, handle_client_faulted (record s { is_open = false }))
      else (ok blocked, s)
  after_write (some n) s =
      if n == 0 then (ok eof, record s { is_open = false }) else (ok (transferred n), s)

  unfoldable pub write_bio : Bytes → TcpStream W → Result W (Transfer ℕ)
  write_bio buf s = let (n, w) = os.write_ex buf s.bio in after_write n (record s { bio = w })

  unfoldable pub write : Bytes → TcpStream W → Result W (Transfer ℕ)
  write buf s =
      unless_returned (handshake_first s) λ s1. unless_returned (shutdown_first s1) (write_bio buf)
