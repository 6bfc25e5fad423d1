-- ===== src/Server/Authentication.antt =====
-- src/server/authentication_repository.cpp and authentication_manager.cpp: the password file, and who
-- a request authenticates as.
pub mod Passwords
use Prim.Native.Nat.{bit_and, bit_or}
use cpp_prototype.Common.{
  ℕ, zero, suc, ◌+◌, ◌-◌, ◌*◌, ◌/◌, ◌%◌, ◌^◌, min, Bool, true, false, not, ◌&&◌, List, [], ◌∷◌,
  ◌++◌, Bytes, length, take, drop, Option, none, some, ltb, leb, ◌==◌, if◌then◌else◌, Outcome, ok,
  err, ◌>>=◌, invalid_record, no_file, unhandled_cipher, missing_salt, salt_too_long, undefined,
}
use cpp_prototype.Common.Key.{bytes_key, same}
use cpp_prototype.Common.Map.{Map, find, insert}
use cpp_prototype.Serialization.BasicToken.{find_char, split_at, decode_basic_token}
use cpp_prototype.Messages.Message.{AuthenticationRequest}
use cpp_prototype.Server.Session.{Authenticator}

-- The digit of a value below 64 in "./0...9A...Za...z".
unfoldable pub itoa64 : ℕ → ℕ
itoa64 v =
    if ltb v 2
    then b'.' + v
    else if ltb v 12
    then b'0' + (v - 2)
    else if ltb v 38
    then b'A' + (v - 12)
    else b'a' + (v - 38)

unfoldable pub uint32_to_b64 : ℕ → ℕ → Bytes
unfolding itoa64
uint32_to_b64 v zero = []
uint32_to_b64 v (suc n) = itoa64 (bit_and v 0x3f) ∷ uint32_to_b64 (v / 2 ^ 6) n

-- `md5[i]`
abbrev pub byte_at : ℕ → Bytes → ℕ
byte_at i [] = 0
byte_at zero (b ∷ bs) = b
byte_at (suc i) (b ∷ bs) = byte_at i bs

abbrev pub three : ℕ → ℕ → ℕ → Bytes → ℕ
three i j k md5 = bit_or (bit_or (byte_at i md5 * 2 ^ 16) (byte_at j md5 * 2 ^ 8)) (byte_at k md5)

unfoldable pub digest_to_string : Bytes → Bytes
unfolding uint32_to_b64
digest_to_string md5 =
    uint32_to_b64 (three 0 6 12 md5) 4
    ++ (uint32_to_b64 (three 1 7 13 md5) 4
        ++ (uint32_to_b64 (three 2 8 14 md5) 4
            ++ (uint32_to_b64 (three 3 9 15 md5) 4
                ++ (uint32_to_b64 (three 4 10 5 md5) 4 ++ uint32_to_b64 (byte_at 11 md5) 2))))

abbrev pub apr1 : Bytes
apr1 = b'$' ∷ b'a' ∷ b'p' ∷ b'r' ∷ b'1' ∷ b'$' ∷ []

-- The loop that adds the seed, up to the length of the password. A digest has 16 bytes.
unfoldable pub add_seed : ℕ → ℕ → Bytes → Bytes
add_seed zero n seed = []
add_seed (suc fuel) n seed =
    let rest = add_seed fuel (n - 16) seed in if n == 0 then [] else take (min n 16) seed ++ rest

-- The loop over the bits of the length: the first char of the vector of the digest, which is still
-- zero, or of the password.
unfoldable pub add_bits : ℕ → ℕ → Bytes → Bytes
add_bits zero i password = []
add_bits (suc fuel) i password =
    let rest = add_bits fuel (i / 2) password in
    if i == 0 then [] else if i % 2 == 1 then 0 ∷ rest else take 1 password ++ rest

-- The thousand rounds.
unfoldable pub hash_rounds : (Bytes → Bytes) → Bytes → Bytes → ℕ → ℕ → Bytes → Bytes
hash_rounds md5 password salt zero i digest = digest
hash_rounds md5 password salt (suc n) i digest =
    let odd = i % 2 == 1 in
    let next =
      (if odd then password else digest)
      ++ ((if i % 3 == 0 then [] else salt)
          ++ ((if i % 7 == 0 then [] else password) ++ (if odd then digest else password))) in
    hash_rounds md5 password salt n (suc i) (md5 next)

-- OpenSSL's MD5 is an argument: the digest of all that the context has been updated with.
unfoldable pub apr1_hash_password : (Bytes → Bytes) → Bytes → Bytes → Bytes
unfolding digest_to_string add_seed add_bits hash_rounds
apr1_hash_password md5 password salt =
    let seed = md5 (password ++ (salt ++ password)) in
    let base =
      password
      ++ (apr1
          ++ (salt
              ++ (add_seed (length password) (length password) seed
                  ++ add_bits (length password) (length password) password))) in
    digest_to_string (hash_rounds md5 password salt 1000 0 (md5 base))

unfoldable pub apr1_extract_salt : Bytes → Outcome Bytes
apr1_extract_salt data_ = elim (find_char b'$' (drop 6 data_)) [
  | none ↦ err missing_salt
  | some n ↦
      if ltb 8 (length (take n (drop 6 data_)))
      then err salt_too_long
      else ok (take n (drop 6 data_))
]

unfoldable pub starts_with : Bytes → Bytes → Bool
starts_with prefix s = same (take (length prefix) s) prefix

unfoldable pub encrypt_data : (Bytes → Bytes) → Bytes → Bytes → Outcome Bytes
encrypt_data md5 password data_ =
    if starts_with apr1 data_
    then (apr1_extract_salt data_
        >>= (λ salt. ok (apr1 ++ (salt ++ b'$' ∷ apr1_hash_password md5 password salt))))
    else err unhandled_cipher

-- `AuthenticationRepository::authenticate`
unfoldable pub check_password : (Bytes → Bytes) → Map Bytes Bytes → Bytes → Bytes → Outcome Bool
check_password md5 entries username password = elim (find username entries) [
  | none ↦ ok false
  | some data_ ↦ encrypt_data md5 password data_ >>= (λ encrypted. ok (same encrypted data_))
]

pub record AuthenticationManager : Type 0 where
  pub entries : Map Bytes Bytes
  pub password_file : Option Bytes

-- The loop of `load` over the lines of the file: an entry that is there already is kept.
unfoldable pub parse_lines : List Bytes → Map Bytes Bytes → Outcome (Map Bytes Bytes)
parse_lines [] entries = ok entries
parse_lines (line ∷ lines) entries =
    let skipped = parse_lines lines entries in
    let parsed : Outcome (Map Bytes Bytes) = elim (split_at b':' line) [
      | none ↦ err invalid_record
      | some (user, data_) ↦ parse_lines lines (insert user data_ entries)
    ] in
    if starts_with (b'#' ∷ []) line then skipped else parsed

-- `files` are the lines that std::getline yields, and none for a file that does not open.
unfoldable pub load :
    (Bytes → Option (List Bytes)) → AuthenticationManager → Outcome AuthenticationManager
load files m = elim m.password_file [
  | none ↦ ok m
  | some path ↦ elim (files path) [
    | none ↦ err no_file
    | some lines ↦ parse_lines lines [] >>= (λ entries. ok (record m { entries = entries }))
  ]
]

abbrev pub nobody : Bytes
nobody = b'n' ∷ b'o' ∷ b'b' ∷ b'o' ∷ b'd' ∷ b'y' ∷ []

unfoldable pub authenticate_none : AuthenticationManager → Option Bytes
authenticate_none m = elim m.password_file [ some path ↦ none | none ↦ some nobody ]

unfoldable pub authenticate_basic :
    (Bytes → Bytes) → AuthenticationManager → Bytes → Outcome (Option Bytes)
authenticate_basic md5 m token = decode_basic_token token >>= (λ parts.
    check_password md5 m.entries parts.0 parts.1
    >>= (λ good. ok (if good then some parts.0 else none)))

abbrev pub method_none : Bytes
method_none = b'n' ∷ b'o' ∷ b'n' ∷ b'e' ∷ []

abbrev pub method_basic : Bytes
method_basic = b'b' ∷ b'a' ∷ b's' ∷ b'i' ∷ b'c' ∷ []

unfoldable pub authenticate :
    (Bytes → Bytes) → AuthenticationManager → AuthenticationRequest → Outcome (Option Bytes)
authenticate md5 m request =
    if same request.method method_none
    then ok (authenticate_none m)
    else if same request.method method_basic
    then authenticate_basic md5 m request.payload
    else ok none

-- What an interactor asks of the manager.
abbrev pub authenticator : (Bytes → Bytes) → AuthenticationManager → Authenticator
authenticator md5 m = record { authenticate = authenticate md5 m }
