-- ===== src/Io/Ssl.antt =====
-- ssl.hpp, bio.hpp and file_types.hpp of src/io: the wrappers of OpenSSL's BIO and SSL. What OpenSSL
-- does is an argument, a record of functions on the state of a connection: the chain of BIOs, the
-- socket below it, and all that is outside.
use cpp_prototype.Common.{
  ℕ, Bool, true, false, ◌==◌, if◌then◌else◌, Bytes, Option, Outcome, ok, err, handshake_failed,
  verify_failed, no_certificate, shutdown_failed,
}
use cpp_prototype.Common.Int.{ℤ, pos, negsuc}

-- The values of SSL_get_error.
pub data SslError : Type 0 where
  no_error zero_return want_read want_write want_accept want_connect want_x509_lookup want_async
        want_async_job want_client_hello_cb syscall_failed ssl_failed :
      SslError

-- The calls of OpenSSL on a connection's state. `read_ex` and `write_ex` give nothing where
-- BIO_read_ex and BIO_write_ex return 0, and else the bytes read, or the number written.
pub record Openssl (W : Type 0) : Type 0 where
  pub read_ex : ℕ → W → Option Bytes × W
  pub write_ex : Bytes → W → Option ℕ × W
  pub should_retry : W → Bool
  pub should_read : W → Bool
  pub should_write : W → Bool
  pub do_handshake : W → ℤ × W
  pub shutdown : W → ℤ × W
  pub get_error : ℤ → W → SslError
  pub is_verified : W → Bool  -- SSL_get_verify_result is X509_V_OK
  pub has_certificate : W → Bool  -- SSL_get_peer_certificate is not null
  pub set_quiet_shutdown : Bool → W → W

-- std::variant<bool, blocked>
pub data Attempt : Type 0 where
  completed : Bool → Attempt
  would_block : Attempt

-- std::variant<T, eof, blocked>
pub data Transfer {ℓ} (A : Type ℓ) : Type ℓ where
  transferred : A → Transfer A
  eof blocked : Transfer A

abbrev pub is_int : ℤ → ℕ → Bool
is_int (pos m) n = m == n
is_int (negsuc _) _ = false

abbrev pub wants_retry : SslError → Bool
wants_retry want_read = true
wants_retry want_write = true
wants_retry _ = false

module _ {W : Type 0} (os : Openssl W) where
  -- `Ssl::do_handshake`
  unfoldable pub ssl_do_handshake : W → Outcome Attempt × W
  ssl_do_handshake w =
      let (ret, w') = os.do_handshake w in
      (
        if is_int ret 1
            then ok (completed true)
            else if is_int ret 0
            then ok (completed false)
            else if wants_retry (os.get_error ret w')
            then ok would_block
            else err handshake_failed,
        w',
      )

  -- `Ssl::shutdown`
  unfoldable pub ssl_shutdown : W → Outcome Attempt × W
  ssl_shutdown w =
      let (ret, w') = os.shutdown w in
      (
        if is_int ret 1
            then ok (completed true)
            else if is_int ret 0
            then ok (completed false)
            else if wants_retry (os.get_error ret w')
            then ok would_block
            else err shutdown_failed,
        w',
      )

  -- `Ssl::verify`: true is returned where the function returns.
  unfoldable pub ssl_verify : W → Outcome Bool
  ssl_verify w =
      if os.is_verified w
      then if os.has_certificate w then ok true else err no_certificate
      else err verify_failed
