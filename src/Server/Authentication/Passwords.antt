-- ===== src/Server/Authentication/Passwords.antt =====
-- Who is authenticated: the password file decides, and its users come in with their passwords.
use cpp_prototype.Common.{
  ◌≤◌, ◌<◌, ◌≡◌, ◌≢◌, ◌⊎◌, ap, inl, inr, true, ◌∷◌, ◌++◌, Bytes, length, take-append, All, none,
  some, Outcome, ok, ◌>>=◌, Bool-cases, Option-cases, Outcome-cases, arith,
}
use cpp_prototype.Common.Key.{bytes_key, lexicographic, same, same_iff, same_refl}
use cpp_prototype.Common.Map.{Map, find}
use cpp_prototype.Serialization.BasicToken.{decode_basic_token, encode_basic_token}
use cpp_prototype.Serialization.BasicToken.RoundTrip.{
  find_char-append, decode_basic_token-encode_basic_token,
}
use cpp_prototype.Messages.Message.{AuthenticationRequest}
use cpp_prototype.Server.Authentication.{
  AuthenticationManager, apr1, apr1_hash_password, apr1_extract_salt, starts_with, encrypt_data,
  check_password, nobody, authenticate_none, authenticate_basic, authenticate, method_none,
  method_basic,
}

module _ (md5 : Bytes → Bytes) where
  -- A user's entry, under a salt, as htpasswd writes it.
  abbrev pub entry : Bytes → Bytes → Bytes
  entry password salt = apr1 ++ (salt ++ b'$' ∷ apr1_hash_password md5 password salt)

  salt_of_entry :
      (password salt : Bytes)
      → All (λ c. c ≢ b'$') salt
      → length salt ≤ 8
      → apr1_extract_salt (entry password salt) ≡ ok salt
  unfolding apr1_extract_salt
  salt_of_entry password salt plain short = ground (
    arith,
    find_char-append b'$' salt (apr1_hash_password md5 password salt) plain,
    take-append salt (b'$' ∷ apr1_hash_password md5 password salt),
  )

  encrypt_entry :
      (password salt : Bytes)
      → All (λ c. c ≢ b'$') salt
      → length salt ≤ 8
      → encrypt_data md5 password (entry password salt) ≡ ok (entry password salt)
  unfolding encrypt_data starts_with lexicographic
  encrypt_entry password salt plain short =
      ap (λ (o : Outcome Bytes). o >>= (λ s. ok (entry password s)))
        (salt_of_entry password salt plain short)

  check_entry :
      (entries : Map Bytes Bytes) (user password salt : Bytes)
      → find user entries ≡ some (entry password salt)
      → All (λ c. c ≢ b'$') salt
      → length salt ≤ 8
      → check_password md5 entries user password ≡ ok true
  unfolding check_password
  check_entry entries user password salt there plain short =
      ground (arith, encrypt_entry password salt plain short, same_refl (entry password salt))

  -- A user whose entry in the password file is that of a password, under a salt of at most eight
  -- chars without a dollar sign, is authenticated by the method basic with the token of name and
  -- password; all chars are below 256, and the name has no colon.
  pub authenticate-encode_basic_token :
      (m : AuthenticationManager) (user password salt : Bytes)
      → find user m.entries ≡ some (entry password salt)
      → All (λ c. c ≢ b'$') salt
      → length salt ≤ 8
      → All (λ c. c < 256) user
      → All (λ c. c < 256) password
      → All (λ c. c ≢ b':') user
      → authenticate md5 m
          (record { method = method_basic; payload = encode_basic_token user password })
        ≡ ok (some user)
  unfolding authenticate authenticate_basic lexicographic
  authenticate-encode_basic_token m user password salt there plain short hu hp no_colon = ground (
    arith,
    decode_basic_token-encode_basic_token user password hu hp no_colon,
    check_entry m.entries user password salt there plain short,
  )

  authenticate_basic_sound :
      (m : AuthenticationManager) (token user : Bytes)
      → authenticate_basic md5 m token ≡ ok (some user)
      → (password : Bytes) × (decode_basic_token token ≡ ok (user, password))
        × (check_password md5 m.entries user password ≡ ok true)
  unfolding authenticate_basic
  authenticate_basic_sound m token user h = elim (Outcome-cases (decode_basic_token token)) [
    | inl ((u, password), e) ↦ elim (Outcome-cases (check_password md5 m.entries u password)) [
      | inl (good, f) ↦ elim (Bool-cases good) [
        | inl yes_ ↦ (password, ground arith, ground arith)
        | inr no_ ↦ absurd (ground arith)
      ]
      | inr (x, f) ↦ absurd (ground arith)
    ]
    | inr (x, e) ↦ absurd (ground arith)
  ]

  check_password_sound :
      (entries : Map Bytes Bytes) (user password : Bytes)
      → check_password md5 entries user password ≡ ok true
      → (data_ : Bytes) × (find user entries ≡ some data_)
        × (encrypt_data md5 password data_ ≡ ok data_)
  unfolding check_password
  check_password_sound entries user password h = elim (Option-cases (find user entries)) [
    | inl e ↦ absurd (ground arith)
    | inr (data_, e) ↦ elim (Outcome-cases (encrypt_data md5 password data_)) [
      | inl (encrypted, f) ↦ (data_, e, ground (arith, same_iff encrypted data_))
      | inr (x, f) ↦ absurd (ground arith)
    ]
  ]

  -- Where the authentication manager names a user, either there is no password file, the method
  -- is none and the user is nobody; or the token decodes to the user and a password, and the file
  -- has an entry for the user which encrypting that password gives back.
  pub authenticate_sound :
      (m : AuthenticationManager) (request : AuthenticationRequest) (user : Bytes)
      → authenticate md5 m request ≡ ok (some user)
      → ((request.method ≡ method_none) × (m.password_file ≡ none) × (user ≡ nobody))
        ⊎ ((password data_ : Bytes) × (decode_basic_token request.payload ≡ ok (user, password))
            × (find user m.entries ≡ some data_)
            × (encrypt_data md5 password data_ ≡ ok data_))
  unfolding authenticate authenticate_none
  authenticate_sound m request user h = elim (Bool-cases (same request.method method_none)) [
    | inl no_method ↦ inl (ground (arith, same_iff request.method method_none))
    | inr other ↦
        let basic : authenticate_basic md5 m request.payload ≡ ok (some user) = ground arith in
        let (password, decoded, checked) = authenticate_basic_sound m request.payload user basic in
        let (data_, there, encrypted) = check_password_sound m.entries user password checked in
        inr (password, data_, decoded, there, encrypted)
  ]
