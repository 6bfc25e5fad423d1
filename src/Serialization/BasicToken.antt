-- ===== src/Serialization/BasicToken.antt =====
-- src/serialization/b64.hpp and basic_token.hpp.
pub mod RoundTrip
use Prim.Native.Nat.{bit_and}
use cpp_prototype.Common.{
  ◌≡◌, refl, ℕ, zero, suc, ◌+◌, ◌-◌, ◌*◌, ◌/◌, ◌%◌, ◌^◌, Bool, ◌&&◌, List, [], ◌∷◌, ◌++◌, Bytes,
  length, take, drop, replicate, Option, none, some, ltb, leb, ◌==◌, if◌then◌else◌, Outcome, ok,
  err, no_separator,
}

-- `s.find (c)`
unfoldable pub find_char : ℕ → Bytes → Option ℕ
find_char c [] = none
find_char c (d ∷ s) =
    let rest = find_char c s in
    if d == c then some 0 else elim rest [ none ↦ none | some i ↦ some (suc i) ]

-- The digit of a value below 64 in "A...Za...z0...9+/".
unfoldable pub digit : ℕ → ℕ
digit v =
    if ltb v 26
    then b'A' + v
    else if ltb v 52
    then b'a' + (v - 26)
    else if ltb v 62
    then b'0' + (v - 52)
    else if v == 62
    then b'+'
    else b'/'

-- The table `T`: the value of a digit, and none for -1.
unfoldable pub value : ℕ → Option ℕ
value c =
    if leb b'A' c && leb c b'Z'
    then some (c - b'A')
    else if leb b'a' c && leb c b'z'
    then some (c - b'a' + 26)
    else if leb b'0' c && leb c b'9'
    then some (c - b'0' + 52)
    else if c == b'+'
    then some 62
    else if c == b'/'
    then some 63
    else none

-- The inner loop of `base64_encode`. `bits` is the source's `b + 6`: how many bits of `a` are to come.
unfoldable pub encode_bits : ℕ → ℕ → ℕ → Bytes × ℕ
encode_bits zero a bits = ([], bits)
encode_bits (suc fuel) a bits =
    let (out, left) = encode_bits fuel a (bits - 6) in
    if leb 6 bits then (digit (a / 2 ^ (bits - 6) % 64) ∷ out, left) else ([], bits)

-- The loop over the bytes. Of the int `a` the low 32 bits count. Two rounds of the inner loop are
-- enough, as fewer than six bits are left before.
unfoldable pub encode_loop : Bytes → ℕ → ℕ → Bytes
unfolding encode_bits digit
encode_loop [] a bits =
    if ltb 0 bits then digit (a * 2 ^ 8 % 2 ^ 32 / 2 ^ (bits + 2) % 64) ∷ [] else []
encode_loop (c ∷ cs) a bits =
    let a' = (a * 2 ^ 8 + c) % 2 ^ 32 in
    let (out, left) = encode_bits 3 a' (bits + 8) in out ++ encode_loop cs a' left

unfoldable pub base64_encode : Bytes → Bytes
unfolding encode_loop
base64_encode bytes =
    let out = encode_loop bytes 0 0 in out ++ replicate ((4 - length out % 4) % 4) b'='

-- The loop of `base64_decode`. `bits` is the source's `b + 8`.
unfoldable pub decode_loop : Bytes → ℕ → ℕ → Bytes
unfolding value
decode_loop [] a bits = []
decode_loop (c ∷ cs) a bits = elim (value c) [
  | none ↦ []
  | some v ↦
      let a' = (a * 2 ^ 6 + v) % 2 ^ 32 in
      if leb 8 (bits + 6)
      then (a' / 2 ^ (bits - 2) % 256) ∷ decode_loop cs a' (bits - 2)
      else decode_loop cs a' (bits + 6)
]

unfoldable pub base64_decode : Bytes → Bytes
unfolding decode_loop
base64_decode s = decode_loop s 0 0

unfoldable pub encode_basic_token : Bytes → Bytes → Bytes
encode_basic_token username password = base64_encode (username ++ b':' ∷ password)

-- The text before the first separator, and the text behind it.
unfoldable pub split_at : ℕ → Bytes → Option (Bytes × Bytes)
unfolding find_char
split_at c s = elim (find_char c s) [ none ↦ none | some i ↦ some (take i s, drop (suc i) s) ]

unfoldable pub decode_basic_token : Bytes → Outcome (Bytes × Bytes)
unfolding split_at
decode_basic_token token = elim (split_at b':' (base64_decode token)) [
  | none ↦ err no_separator
  | some parts ↦ ok parts
]
