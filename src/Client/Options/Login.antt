-- ===== src/Client/Options/Login.antt =====
-- What the client asks for is what the server grants.
use cpp_prototype.Common.{◌≡◌, ◌≢◌, ◌≤◌, ◌<◌, none, some, Bytes, length, All, ok}
use cpp_prototype.Common.Key.{bytes_key, lexicographic}
use cpp_prototype.Common.Map.{find}
use cpp_prototype.Client.Options.{AuthenticationOption, Options, make_authentication_request}
use cpp_prototype.Server.Authentication.{
  AuthenticationManager, nobody, authenticate_none, authenticate,
}
use cpp_prototype.Server.Authentication.Passwords.{entry, authenticate-encode_basic_token}

module _ (md5 : Bytes → Bytes) (m : AuthenticationManager) (o : Options) where
  -- The request that the client makes of a user and a password on its command line is granted to
  -- that user by a server whose password file has the user's entry for that password, under a
  -- salt of at most eight chars without a dollar sign; all chars are below 256, and the name has
  -- no colon.
  pub make_authentication_request-authenticate :
      (a : AuthenticationOption) (salt : Bytes)
      → o.authentication ≡ some a
      → find a.username m.entries ≡ some (entry md5 a.password salt)
      → All (λ c. c ≢ b'$') salt
      → length salt ≤ 8
      → All (λ c. c < 256) a.username
      → All (λ c. c < 256) a.password
      → All (λ c. c ≢ b':') a.username
      → authenticate md5 m (make_authentication_request o) ≡ ok (some a.username)
  unfolding make_authentication_request
  make_authentication_request-authenticate a salt e there plain short name password colon = rw e (
      authenticate-encode_basic_token md5 m a.username a.password salt there plain short name
        password colon)

  pub make_authentication_request-nobody :
      o.authentication ≡ none
      → m.password_file ≡ none
      → authenticate md5 m (make_authentication_request o) ≡ ok (some nobody)
  unfolding make_authentication_request authenticate authenticate_none lexicographic
  make_authentication_request-nobody e f = rw (e, f)
