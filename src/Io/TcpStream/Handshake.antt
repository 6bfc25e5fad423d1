-- ===== src/Io/TcpStream/Handshake.antt =====
-- Nothing is read or written before the handshake is done, and the peer verified where it has to be.
use cpp_prototype.Common.{ℕ, ◌≡◌, ◌≢◌, ◌⊎◌, true, Bytes, ok, arith}
use cpp_prototype.Common.Int.{pos}
use cpp_prototype.Io.Ssl.{Openssl, Transfer, transferred, ssl_do_handshake, ssl_verify}
use cpp_prototype.Io.TcpStream.{
  handshake, TcpStream, Result, unless_returned, do_handshake, handshake_first, read, write,
}

module _ {W : Type 0} (os : Openssl W) where
  -- OpenSSL has completed the handshake, and has verified the peer where the stream asks for it.
  pub record IsHandshaken (s : TcpStream W) : Type 0 where
    pub returned : (os.do_handshake s.bio).0 ≡ pos 1
    pub verified : s.should_verify ≡ true → os.is_verified (os.do_handshake s.bio).1 ≡ true
    pub presented : s.should_verify ≡ true → os.has_certificate (os.do_handshake s.bio).1 ≡ true

  -- No bytes have passed, and the connection is as the handshake has left it.
  abbrev pub IsWithheld {ℓ} : {A : Type ℓ} → TcpStream W → Result W (Transfer A) → Type ℓ
  IsWithheld {A = A} s (o, s') =
      (s'.bio ≡ (os.do_handshake s.bio).1) × ((a : A) → o ≢ ok (transferred a))

  gate {ℓ} :
      {A : Type ℓ} (s : TcpStream W) (rest : TcpStream W → Result W (Transfer A))
      → s.has_ssl ≡ true
      → s.state ≡ handshake
      → IsHandshaken s ⊎ IsWithheld s (unless_returned (handshake_first os s) rest)
  unfolding handshake_first do_handshake ssl_do_handshake ssl_verify
  gate s rest h k = ground arith

  -- While the handshake of a stream under TLS is to be done, `read` and `write` pass bytes only
  -- where OpenSSL has completed the handshake and, if the stream verifies its peer, has verified
  -- it and has its certificate; otherwise they transfer nothing and touch the connection only by
  -- the handshake.
  pub transfer-IsHandshaken :
      (len : ℕ) (buf : Bytes) (s : TcpStream W)
      → s.has_ssl ≡ true
      → s.state ≡ handshake
      → (IsHandshaken s ⊎ IsWithheld s (read os len s))
        × (IsHandshaken s ⊎ IsWithheld s (write os buf s))
  unfolding read write
  transfer-IsHandshaken len buf s h k = (gate s _ h k, gate s _ h k)
