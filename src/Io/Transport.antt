-- ===== src/Io/Transport.antt =====
-- What the streams of src/io rely on OpenSSL for, as views of the state of a connection: the bytes that
-- it has taken to send, and those that it has still to give out.
pub mod Reading
pub mod Writing
use cpp_prototype.Common.{
  ◌≡◌, ◌≢◌, Bool, true, false, Bytes, Option, none, some, Outcome, ok, err, Error, IsException,
  arith,
}
use cpp_prototype.Io.Ssl.{
  Openssl, Transfer, transferred, ssl_do_handshake, ssl_shutdown, ssl_verify,
}
use cpp_prototype.Io.TcpStream.{
  TcpStream, Result, do_handshake, handle_shutdown, handshake_first, shutdown_first,
}

-- The handshake and the shutdown pass no bytes of the application.
pub record Keeps {W : Type 0} (os : Openssl W) (view : W → Bytes) : Type 0 where
  pub do_handshake : (w : W) → view (os.do_handshake w).1 ≡ view w
  pub shutdown : (w : W) → view (os.shutdown w).1 ≡ view w
  pub set_quiet_shutdown : (b : Bool) (w : W) → view (os.set_quiet_shutdown b w) ≡ view w

module _ {W : Type 0} (os : Openssl W) (view : W → Bytes) (keeps : Keeps os view) where
  do_handshake-view : (s : TcpStream W) → view (do_handshake os s).1.bio ≡ view s.bio
  unfolding do_handshake ssl_do_handshake
  do_handshake-view s = ground (arith, keeps.do_handshake s.bio)

  pub handle_shutdown-view : (s : TcpStream W) → view (handle_shutdown os s).1.bio ≡ view s.bio
  unfolding handle_shutdown ssl_shutdown
  handle_shutdown-view s = ground (arith, keeps.shutdown s.bio)

  do_handshake-throws :
      (s : TcpStream W) (e : Error) → (do_handshake os s).0 ≡ err e → IsException e
  unfolding do_handshake ssl_do_handshake ssl_verify
  do_handshake-throws s e h = ground arith

  pub handle_shutdown-throws :
      (s : TcpStream W) (e : Error) → (handle_shutdown os s).0 ≡ err e → IsException e
  unfolding handle_shutdown ssl_shutdown
  handle_shutdown-throws s e h = ground arith

  -- The two tests that `read` and `write` begin with pass no bytes.
  abbrev pub Withholds {ℓ} : {A : Type ℓ} → TcpStream W → Result W (Option (Transfer A)) → Type ℓ
  Withholds {A = A} s r =
      (view r.1.bio ≡ view s.bio)
      × ((a : A) → r.0 ≢ ok (some (transferred a)))
      × ((e : Error) → r.0 ≡ err e → IsException e)

  pub handshake_first-Withholds {ℓ} :
      {A : Type ℓ} (s : TcpStream W) → Withholds {A = A} s (handshake_first os s)
  unfolding handshake_first
  handshake_first-Withholds s = ground (arith, do_handshake-view s, do_handshake-throws s)

  pub shutdown_first-Withholds {ℓ} :
      {A : Type ℓ} (s : TcpStream W) → Withholds {A = A} s (shutdown_first os s)
  unfolding shutdown_first
  shutdown_first-Withholds s = ground (arith, handle_shutdown-view s, handle_shutdown-throws s)
