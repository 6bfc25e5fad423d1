-- ===== src/Serialization/BasicToken/RoundTrip.antt =====
-- What is encoded is decoded again, and a token gives back its user and password.
use mathlib.Core.Path.{ap₂}
use cpp_prototype.Common.{
  ◌≢◌, All-append, take-append, no_separator, ℕ, zero, suc, ◌+◌, ◌-◌, ◌*◌, ◌/◌, ◌%◌, ◌^◌, ◌<◌, ◌≡◌,
  refl, ap, ◌∙◌, [], ◌∷◌, ◌++◌, Bytes, length, drop, replicate, All, Option, none, some, leb,
  if◌then◌else◌, ok, err, arith,
}
use cpp_prototype.Serialization.BasicToken.{
  find_char, digit, value, encode_bits, encode_loop, base64_encode, decode_loop, base64_decode,
  encode_basic_token, split_at, decode_basic_token,
}

value-digit : (v : ℕ) → v < 64 → value (digit v) ≡ some v
unfolding value digit
value-digit v h = ground arith

cons-eq : {x y : ℕ} {xs ys : Bytes} → x ≡ y → xs ≡ ys → x ∷ xs ≡ y ∷ ys
cons-eq e f = ap₂ ◌∷◌ e f

-- One round of the loop, for a digit.
decode_digit :
    (v : ℕ) (cs : Bytes) (a bits : ℕ)
    → v < 64
    → let a' = (a * 2 ^ 6 + v) % 2 ^ 32 in
      decode_loop (digit v ∷ cs) a bits ≡ (
        if leb 8 (bits + 6)
        then (a' / 2 ^ (bits - 2) % 256) ∷ decode_loop cs a' (bits - 2)
        else decode_loop cs a' (bits + 6))
unfolding decode_loop
decode_digit v cs a bits h = ground (arith, value-digit v h)

next : ℕ → ℕ → ℕ
next a v = (a * 2 ^ 6 + v) % 2 ^ 32

-- The bytes that two successive digits make.
first_byte : (a v w : ℕ) → v < 64 → w < 64 → next (next a v) w / 16 % 256 ≡ v * 4 + w / 16
unfolding next
first_byte a v w hv hw = omega arith

second_byte : (a w x : ℕ) → w < 64 → x < 64 → next (next a w) x / 4 % 256 ≡ w % 16 * 16 + x / 4
unfolding next
second_byte a w x hw hx = omega arith

third_byte : (a x y : ℕ) → x < 64 → y < 64 → next (next a x) y / 1 % 256 ≡ x % 4 * 64 + y
unfolding next
third_byte a x y hx hy = omega arith

-- The digits of a group, and the bytes that they make, while there are any.
decode_two :
    (a v w : ℕ) (rest : Bytes)
    → v < 64
    → w < 64
    → decode_loop (digit v ∷ digit w ∷ rest) a 0
      ≡ (v * 4 + w / 16) ∷ decode_loop rest (next (next a v) w) 4
unfolding next
decode_two a v w rest hv hw =
    decode_digit v (digit w ∷ rest) a 0 hv
    ∙ decode_digit w rest _ 6 hw
    ∙ cons-eq (first_byte a v w hv hw) refl

decode_three :
    (a v w x : ℕ) (rest : Bytes)
    → v < 64
    → w < 64
    → x < 64
    → decode_loop (digit v ∷ digit w ∷ digit x ∷ rest) a 0
      ≡ (v * 4 + w / 16) ∷ (w % 16 * 16 + x / 4) ∷ decode_loop rest (next (next (next a v) w) x) 2
unfolding next
decode_three a v w x rest hv hw hx =
    decode_two a v w (digit x ∷ rest) hv hw
    ∙ cons-eq refl (decode_digit x rest _ 4 hx ∙ cons-eq (second_byte (next a v) w x hw hx) refl)

decode_group :
    (a v w x y : ℕ) (rest : Bytes)
    → v < 64
    → w < 64
    → x < 64
    → y < 64
    → decode_loop (digit v ∷ digit w ∷ digit x ∷ digit y ∷ rest) a 0
      ≡ (v * 4 + w / 16)
        ∷ (w % 16 * 16 + x / 4)
        ∷ (x % 4 * 64 + y)
        ∷ decode_loop rest (next (next (next (next a v) w) x) y) 0
unfolding next
decode_group a v w x y rest hv hw hx hy =
    decode_three a v w x (digit y ∷ rest) hv hw hx
    ∙ cons-eq refl (
        cons-eq refl
          (decode_digit y rest _ 2 hy ∙ cons-eq (third_byte (next (next a v) w) x y hx hy) refl))

push : ℕ → ℕ → ℕ
push a c = (a * 2 ^ 8 + c) % 2 ^ 32

-- The digits that successive bytes make, whatever `a` holds of the bytes before.
first_digit : (a x : ℕ) → x < 256 → push a x / 4 % 64 ≡ x / 4
unfolding push
first_digit a x hx = omega arith

second_digit : (a x y : ℕ) → x < 256 → y < 256 → push (push a x) y / 16 % 64 ≡ x % 4 * 16 + y / 16
unfolding push
second_digit a x y hx hy = omega arith

third_digit : (a y z : ℕ) → y < 256 → z < 256 → push (push a y) z / 64 % 64 ≡ y % 16 * 4 + z / 64
unfolding push
third_digit a y z hy hz = omega arith

fourth_digit : (a z : ℕ) → z < 256 → push a z / 1 % 64 ≡ z % 64
unfolding push
fourth_digit a z hz = omega arith

-- The last digit, after one byte of a group or two.
last_digit_one : (a x : ℕ) → x < 256 → push a x * 2 ^ 8 % 2 ^ 32 / 16 % 64 ≡ x % 4 * 16
unfolding push
last_digit_one a x hx = omega arith

last_digit_two : (a y : ℕ) → y < 256 → push a y * 2 ^ 8 % 2 ^ 32 / 64 % 64 ≡ y % 16 * 4
unfolding push
last_digit_two a y hy = omega arith

encode_group :
    (a x y z : ℕ) (rest : Bytes)
    → x < 256
    → y < 256
    → z < 256
    → encode_loop (x ∷ y ∷ z ∷ rest) a 0
      ≡ digit (x / 4)
        ∷ digit (x % 4 * 16 + y / 16)
        ∷ digit (y % 16 * 4 + z / 64)
        ∷ digit (z % 64)
        ∷ encode_loop rest (push (push (push a x) y) z) 0
unfolding encode_loop encode_bits push
encode_group a x y z rest hx hy hz = cons-eq (ap digit (first_digit a x hx)) (
    cons-eq (ap digit (second_digit a x y hx hy)) (
      cons-eq (ap digit (third_digit (push a x) y z hy hz))
        (cons-eq (ap digit (fourth_digit (push (push a x) y) z hz)) refl)))

encode_one :
    (a x : ℕ) → x < 256 → encode_loop (x ∷ []) a 0 ≡ digit (x / 4) ∷ digit (x % 4 * 16) ∷ []
unfolding encode_loop encode_bits push
encode_one a x hx =
    cons-eq (ap digit (first_digit a x hx)) (cons-eq (ap digit (last_digit_one a x hx)) refl)

encode_two :
    (a x y : ℕ)
    → x < 256
    → y < 256
    → encode_loop (x ∷ y ∷ []) a 0
      ≡ digit (x / 4) ∷ digit (x % 4 * 16 + y / 16) ∷ digit (y % 16 * 4) ∷ []
unfolding encode_loop encode_bits push
encode_two a x y hx hy = cons-eq (ap digit (first_digit a x hx)) (
    cons-eq (ap digit (second_digit a x y hx hy))
      (cons-eq (ap digit (last_digit_two (push a x) y hy)) refl))

decode_padding : (n a bits : ℕ) → decode_loop (replicate n b'=') a bits ≡ []
unfolding decode_loop value
decode_padding zero a bits = refl
decode_padding (suc n) a bits = refl

-- However much padding follows, the digits of some bytes give back the bytes.
decode-encode :
    (bytes : Bytes) (n a b : ℕ)
    → All (λ c. c < 256) bytes
    → decode_loop (encode_loop bytes a 0 ++ replicate n b'=') b 0 ≡ bytes
unfolding encode_loop
decode-encode [] n a b h = decode_padding n b 0
decode-encode (x ∷ []) n a b h =
    ap (λ (s : Bytes). decode_loop (s ++ replicate n b'=') b 0) (encode_one a x h.0)
    ∙ decode_two b (x / 4) (x % 4 * 16) (replicate n b'=') (omega (arith, h.0)) (omega arith)
    ∙ cons-eq (omega arith) (decode_padding n _ 4)
decode-encode (x ∷ y ∷ []) n a b h =
    ap (λ (s : Bytes). decode_loop (s ++ replicate n b'=') b 0) (encode_two a x y h.0 h.1.0)
    ∙ decode_three b (x / 4) (x % 4 * 16 + y / 16) (y % 16 * 4) (replicate n b'=')
        (omega (arith, h.0)) (omega (arith, h.1.0)) (omega arith)
    ∙ cons-eq (omega (arith, h.1.0)) (cons-eq (omega (arith, h.1.0)) (decode_padding n _ 2))
decode-encode (x ∷ y ∷ z ∷ bytes) n a b h =
    ap (λ (s : Bytes). decode_loop (s ++ replicate n b'=') b 0)
      (encode_group a x y z bytes h.0 h.1.0 h.1.1.0)
    ∙ decode_group b (x / 4) (x % 4 * 16 + y / 16) (y % 16 * 4 + z / 64) (z % 64) _
        (omega (arith, h.0)) (omega (arith, h.1.0)) (omega (arith, h.1.1.0)) (omega arith)
    ∙ cons-eq (omega (arith, h.1.0)) (
        cons-eq (omega (arith, h.1.0, h.1.1.0))
          (cons-eq (omega arith) (decode-encode bytes n _ _ h.1.1.1)))

-- Bytes come through base 64 unchanged.
pub base64_decode-base64_encode :
    (bytes : Bytes) → All (λ c. c < 256) bytes → base64_decode (base64_encode bytes) ≡ bytes
unfolding base64_decode base64_encode
base64_decode-base64_encode bytes h = decode-encode bytes _ 0 0 h

pub find_char-append :
    (c : ℕ) (s t : Bytes) → All (λ d. d ≢ c) s → find_char c (s ++ c ∷ t) ≡ some (length s)
unfolding find_char
find_char-append c [] t h = ground arith
find_char-append c (d ∷ s) t h = ground (arith, find_char-append c s t h.1, h.0)

drop-suc : (s t : Bytes) (c : ℕ) → drop (suc (length s)) (s ++ c ∷ t) ≡ t
drop-suc [] t c = refl
drop-suc (d ∷ s) t c = drop-suc s t c

pub split_at-append :
    (c : ℕ) (s t : Bytes) → All (λ d. d ≢ c) s → split_at c (s ++ c ∷ t) ≡ some (s, t)
unfolding split_at
split_at-append c s t h =
    ground (arith, find_char-append c s t h, take-append s (c ∷ t), drop-suc s t c)

-- The token of a name without a colon and a password, of chars below 256, is encoded in base 64
-- and decoded to that name and password again.
pub decode_basic_token-encode_basic_token :
    (username password : Bytes)
    → All (λ c. c < 256) username
    → All (λ c. c < 256) password
    → All (λ c. c ≢ b':') username
    → decode_basic_token (encode_basic_token username password) ≡ ok (username, password)
unfolding decode_basic_token encode_basic_token
decode_basic_token-encode_basic_token username password hu hp plain =
    ap (λ (s : Bytes). elim (split_at b':' s) [ none ↦ err no_separator | some parts ↦ ok parts ])
      (base64_decode-base64_encode (username ++ b':' ∷ password)
        (All-append (λ c. c < 256) username (b':' ∷ password) hu (omega arith, hp)))
    ∙ ap
        (λ (o : Option (Bytes × Bytes)). elim o [ none ↦ err no_separator | some parts ↦ ok parts ])
        (split_at-append b':' username password plain)
