-- ===== src/Io/Transport/Reading.antt =====
-- What `read` of a stream reports is what it has received.
use cpp_prototype.Common.{
  ℕ, ◌<◌, ◌≡◌, refl, sym, ◌∙◌, true, ◌++◌, [], ◌∷◌, Bytes, Option, none, some, length, Outcome, ok,
  err, Error, IsException, err-IsException, arith,
}
use cpp_prototype.Io.Ssl.{Openssl, Transfer, transferred, eof, blocked}
use cpp_prototype.Io.TcpStream.{
  TcpStream, shutdown, Result, unless_returned, handle_client_faulted, after_read, read_bio, read,
}
use cpp_prototype.Io.Transport.{
  Keeps, Withholds, handshake_first-Withholds, shutdown_first-Withholds, handle_shutdown-view,
  handle_shutdown-throws,
}

abbrev pub given : Option Bytes → Bytes
given none = []
given (some buf) = buf

-- BIO_read_ex gives out the next bytes of the connection, and no other call does.
pub record Receives {W : Type 0} (os : Openssl W) (unread : W → Bytes) : Type 0 where
  pub keeps : Keeps os unread
  pub read_ex :
      (len : ℕ) (w : W) → unread w ≡ given (os.read_ex len w).0 ++ unread (os.read_ex len w).1

abbrev pub received_by : Outcome (Transfer Bytes) → Bytes
received_by (ok (transferred buf)) = buf
received_by (ok eof) = []
received_by (ok blocked) = []
received_by (err e) = []

module _ {W : Type 0} (os : Openssl W) (unread : W → Bytes) (receives : Receives os unread) where
  pub record WasRead (s : TcpStream W) (r : Result W (Transfer Bytes)) : Type 0 where
    pub unread_before : unread s.bio ≡ received_by r.0 ++ unread r.1.bio
    pub not_empty : (buf : Bytes) → r.0 ≡ ok (transferred buf) → 0 < length buf
    pub throws : (e : Error) → r.0 ≡ err e → IsException e

  Withholds-WasRead :
      (s : TcpStream W) (r : Result W (Option (Transfer Bytes)))
      (rest : TcpStream W → Result W (Transfer Bytes))
      → Withholds os unread receives.keeps s r
      → ((t : TcpStream W) → WasRead t (rest t))
      → WasRead s (unless_returned r rest)
  Withholds-WasRead s (ok none, t) rest h f = record {
    unread_before = sym h.0 ∙ (f t).unread_before;
    not_empty = (f t).not_empty;
    throws = (f t).throws;
  }
  Withholds-WasRead s (ok (some (transferred n)), t) rest h f = absurd (h.1 n refl)
  Withholds-WasRead s (ok (some eof), t) rest h f = record {
    unread_before = sym h.0;
    not_empty = λ b e. cc;
    throws = λ x k. cc;
  }
  Withholds-WasRead s (ok (some blocked), t) rest h f = record {
    unread_before = sym h.0;
    not_empty = λ b e. cc;
    throws = λ x k. cc;
  }
  Withholds-WasRead s (err e, t) rest h f = record {
    unread_before = sym h.0;
    not_empty = λ b k. cc;
    throws = λ x k. err-IsException k (h.2 e refl);
  }

  after_read-WasRead :
      (o : Option Bytes) (w : W) (s : TcpStream W)
      → unread s.bio ≡ given o ++ unread w
      → WasRead s (after_read os o (record s { bio = w }))
  unfolding after_read handle_client_faulted
  after_read-WasRead none w s e =
      let t = record s { bio = w; state = shutdown } in
      let same = handle_shutdown-view os unread receives.keeps t in
      let safe = handle_shutdown-throws os unread receives.keeps t in
      record {
        unread_before = ground (arith, e, same, receives.keeps.set_quiet_shutdown true w);
        not_empty = λ b k. ground arith;
        throws = λ x k. ground (arith, safe x);
      }
  after_read-WasRead (some []) w s e = record {
    unread_before = ground (arith, e);
    not_empty = λ b k. ground arith;
    throws = λ x k. ground arith;
  }
  after_read-WasRead (some (c ∷ buf)) w s e = record {
    unread_before = ground (arith, e);
    not_empty = λ b k. ground arith;
    throws = λ x k. ground arith;
  }

  pub read-WasRead : (len : ℕ) (s : TcpStream W) → WasRead s (read os len s)
  unfolding read read_bio
  read-WasRead len s =
      Withholds-WasRead s _ _ (handshake_first-Withholds os unread receives.keeps s) λ t.
        Withholds-WasRead t _ _ (shutdown_first-Withholds os unread receives.keeps t) λ u.
          after_read-WasRead (os.read_ex len u.bio).0 (os.read_ex len u.bio).1 u
            (receives.read_ex len u.bio)
