-- ===== src/Io/Transport/Writing.antt =====
-- What `write` of a stream sends is what it reports.
use cpp_prototype.Common.{
  ℕ, zero, suc, ◌≤◌, ◌<◌, ◌≡◌, refl, ap, ◌∙◌, true, ◌++◌, append-nil, [], Bytes, Option, none, some,
  length, take, Outcome, ok, err, Error, IsException, err-IsException, arith,
}
use cpp_prototype.Io.Ssl.{Openssl, Transfer, transferred, eof, blocked}
use cpp_prototype.Io.TcpStream.{
  TcpStream, Result, unless_returned, handle_client_faulted, after_write, write_bio, write,
}
use cpp_prototype.Io.Transport.{
  Keeps, Withholds, handshake_first-Withholds, shutdown_first-Withholds,
}

abbrev pub taken : Option ℕ → Bytes → Bytes
taken none buf = []
taken (some n) buf = take n buf

-- BIO_write_ex takes the bytes that it reports, from the front, and no other call sends any.
pub record Sends {W : Type 0} (os : Openssl W) (sent : W → Bytes) : Type 0 where
  pub keeps : Keeps os sent
  pub read_ex : (len : ℕ) (w : W) → sent (os.read_ex len w).1 ≡ sent w
  pub write_ex :
      (buf : Bytes) (w : W) → sent (os.write_ex buf w).1 ≡ sent w ++ taken (os.write_ex buf w).0 buf
  pub written : (buf : Bytes) (w : W) (n : ℕ) → (os.write_ex buf w).0 ≡ some n → n ≤ length buf

abbrev pub sent_by : Outcome (Transfer ℕ) → Bytes → Bytes
sent_by (ok (transferred n)) buf = take n buf
sent_by (ok eof) buf = []
sent_by (ok blocked) buf = []
sent_by (err e) buf = []

module _ {W : Type 0} (os : Openssl W) (sent : W → Bytes) (sends : Sends os sent) where
  -- What a call of `write` has sent is what it reports.
  pub record Wrote (buf : Bytes) (s : TcpStream W) (r : Result W (Transfer ℕ)) : Type 0 where
    pub sent_more : sent r.1.bio ≡ sent s.bio ++ sent_by r.0 buf
    pub bounds : (n : ℕ) → r.0 ≡ ok (transferred n) → (0 < n) × (n ≤ length buf)
    pub throws : (e : Error) → r.0 ≡ err e → IsException e

  Withholds-Wrote :
      (buf : Bytes) (s : TcpStream W) (r : Result W (Option (Transfer ℕ)))
      (rest : TcpStream W → Result W (Transfer ℕ))
      → Withholds os sent sends.keeps s r
      → ((t : TcpStream W) → Wrote buf t (rest t))
      → Wrote buf s (unless_returned r rest)
  Withholds-Wrote buf s (ok none, t) rest h f = record {
    sent_more = (f t).sent_more ∙ ap (λ b. b ++ sent_by (rest t).0 buf) h.0;
    bounds = (f t).bounds;
    throws = (f t).throws;
  }
  Withholds-Wrote buf s (ok (some (transferred n)), t) rest h f = absurd (h.1 n refl)
  Withholds-Wrote buf s (ok (some eof), t) rest h f = record {
    sent_more = rw append-nil h.0;
    bounds = λ n e. cc;
    throws = λ x k. cc;
  }
  Withholds-Wrote buf s (ok (some blocked), t) rest h f = record {
    sent_more = rw append-nil h.0;
    bounds = λ n e. cc;
    throws = λ x k. cc;
  }
  Withholds-Wrote buf s (err e, t) rest h f = record {
    sent_more = rw append-nil h.0;
    bounds = λ n k. cc;
    throws = λ x k. err-IsException k (h.2 e refl);
  }

  after_write-Wrote :
      (o : Option ℕ) (buf : Bytes) (w : W) (s : TcpStream W)
      → sent w ≡ sent s.bio ++ taken o buf
      → ((n : ℕ) → o ≡ some n → n ≤ length buf)
      → Wrote buf s (after_write os o (record s { bio = w }))
  unfolding after_write handle_client_faulted
  after_write-Wrote none buf w s e h = record {
    sent_more = ground (arith, e, sends.keeps.set_quiet_shutdown true w);
    bounds = λ n k. ground arith;
    throws = λ x k. ground arith;
  }
  after_write-Wrote (some zero) buf w s e h = record {
    sent_more = e;
    bounds = λ n k. cc;
    throws = λ x k. cc;
  }
  after_write-Wrote (some (suc n)) buf w s e h = record {
    sent_more = ground (arith, e);
    bounds = λ k q. ground (arith, h (suc n) refl);
    throws = λ x k. ground arith;
  }

  write_bio-Wrote : (buf : Bytes) (s : TcpStream W) → Wrote buf s (write_bio os buf s)
  unfolding write_bio
  write_bio-Wrote buf s =
      after_write-Wrote (os.write_ex buf s.bio).0 buf (os.write_ex buf s.bio).1 s
        (sends.write_ex buf s.bio) (sends.written buf s.bio)

  pub write-Wrote : (buf : Bytes) (s : TcpStream W) → Wrote buf s (write os buf s)
  unfolding write
  write-Wrote buf s =
      Withholds-Wrote buf s _ _ (handshake_first-Withholds os sent sends.keeps s) λ t.
        Withholds-Wrote buf t _ _ (shutdown_first-Withholds os sent sends.keeps t)
          (write_bio-Wrote buf)
