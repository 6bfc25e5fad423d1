-- ===== src/Common/Text/Decimal.antt =====
-- A number is read back from its decimal form.
use Prim.Native.Nat.{ℕ, zero, suc, ◌+◌, ◌-◌, ◌*◌, ◌/◌, ◌%◌, ◌^◌, ◌≤◌, ◌<◌}
use mathlib.Core.Path.{◌≡◌, refl, ap, ◌∙◌}
use mathlib.Core.Bool.{false}
use mathlib.Core.Logic.{◌≢◌}
use mathlib.Core.Option.{some}
use mathlib.Core.List.{[], ◌∷◌, ◌++◌}
use native.Mathlib.Omega.{arith}
use cpp_prototype.Common.Int.{ℤ, pos, negsuc, IsInt32}
use cpp_prototype.Common.Lists.{Bytes, All, All-append}
use cpp_prototype.Common.Results.{ok}
use cpp_prototype.Common.Tests.{ltb, if_cases}
use cpp_prototype.Common.Text.{
  positive, negative, is_digit, skip_space, scan, unsigned, signed, stoi, digits, decimal,
  decimal_int,
}

abbrev pub AllDigits : Bytes → Type 0
AllDigits = All (λ c. (b'0' ≤ c) × (c ≤ b'9'))

digits-AllDigits : (fuel n : ℕ) → AllDigits (digits fuel n)
unfolding digits
digits-AllDigits zero n = tt
digits-AllDigits (suc fuel) n =
    if_cases AllDigits (ltb n 10) _ _ (λ h. ((omega arith, ground (arith, h)), tt))
      (λ h.
        All-append _ (digits fuel (n / 10)) ((b'0' + n % 10) ∷ []) (digits-AllDigits fuel (n / 10))
          ((omega arith, omega arith), tt))

scan-append : (n : ℕ) (s t : Bytes) → AllDigits s → scan n (s ++ t) ≡ scan (scan n s) t
unfolding scan
scan-append n [] t h = refl
scan-append n (c ∷ s) t h = ground (arith, scan-append (n * 10 + (c - b'0')) s t h.1, h.0)

scan-digits : (fuel n : ℕ) → n < fuel → scan 0 (digits fuel n) ≡ n
unfolding scan digits
scan-digits zero n h = absurd (omega arith)
scan-digits (suc fuel) n h = ground (
  arith,
  scan-digits fuel (n / 10),
  scan-append 0 (digits fuel (n / 10)) ((b'0' + n % 10) ∷ []) (digits-AllDigits fuel (n / 10)),
)

-- At least one digit, which is no space and no sign.
pub data Numeral : Bytes → Type 0 where
  numeral : {c : ℕ} {s : Bytes} → b'0' ≤ c → c ≤ b'9' → Numeral (c ∷ s)

append-Numeral : (s : Bytes) (d : ℕ) → AllDigits (s ++ d ∷ []) → Numeral (s ++ d ∷ [])
append-Numeral [] d h = numeral h.0.0 h.0.1
append-Numeral (c ∷ s) d h = numeral h.0.0 h.0.1

digits-Numeral : (fuel n : ℕ) → Numeral (digits (suc fuel) n)
unfolding digits
digits-Numeral fuel n =
    if_cases Numeral (ltb n 10) _ _ (λ h. numeral (omega arith) (ground (arith, h)))
      (λ h. append-Numeral (digits fuel (n / 10)) (b'0' + n % 10) (
        All-append _ (digits fuel (n / 10)) ((b'0' + n % 10) ∷ []) (digits-AllDigits fuel (n / 10))
          ((omega arith, omega arith), tt)))

unsigned_lem : (s : Bytes) → Numeral s → unsigned s ≡ some (scan 0 s)
unfolding unsigned
unsigned_lem _ (numeral lo hi) = ground (arith, lo, hi)

signed_lem : (s : Bytes) → Numeral s → stoi s ≡ positive (unsigned s)
unfolding stoi skip_space signed
signed_lem _ (numeral lo hi) = ground (arith, lo, hi)

unsigned-decimal : (n : ℕ) → unsigned (decimal n) ≡ some n
unfolding decimal
unsigned-decimal n =
    unsigned_lem (digits (suc n) n) (digits-Numeral n n)
    ∙ ap some (scan-digits (suc n) n (omega arith))

pub decimal-AllDigits : (n : ℕ) → AllDigits (decimal n)
unfolding decimal
decimal-AllDigits n = digits-AllDigits (suc n) n

Numeral-ne : (s : Bytes) → Numeral s → s ≢ []
Numeral-ne _ (numeral lo hi) e = cc

pub decimal-ne : (n : ℕ) → decimal n ≢ []
unfolding decimal
decimal-ne n = Numeral-ne (digits (suc n) n) (digits-Numeral n n)

pub stoi-decimal : (n : ℕ) → n < 2 ^ 31 → stoi (decimal n) ≡ ok (pos n)
unfolding decimal
stoi-decimal n h =
    signed_lem (digits (suc n) n) (digits-Numeral n n)
    ∙ ap positive (unsigned-decimal n)
    ∙ ground (arith, h)

-- Every 32-bit integer is read back from its decimal form.
pub stoi-decimal_int : (i : ℤ) → IsInt32 i → stoi (decimal_int i) ≡ ok i
unfolding decimal_int stoi skip_space signed
stoi-decimal_int (pos n) h = stoi-decimal n h
stoi-decimal_int (negsuc n) h = ap negative (unsigned-decimal (suc n)) ∙ ground (arith, h)

pub Numeral-append : (s t : Bytes) → Numeral s → Numeral (s ++ t)
Numeral-append _ t (numeral lo hi) = numeral lo hi

pub decimal-Numeral : (n : ℕ) → Numeral (decimal n)
unfolding decimal
decimal-Numeral n = digits-Numeral n n

scan_stop : (n d : ℕ) (s : Bytes) → is_digit d ≡ false → scan n (d ∷ s) ≡ n
unfolding scan
scan_stop n d s h = rw h refl

-- What follows a number, and is no digit, is not read.
pub unsigned-append :
    (n d : ℕ) (s : Bytes) → is_digit d ≡ false → unsigned (decimal n ++ d ∷ s) ≡ some n
unfolding decimal
unsigned-append n d s h =
    unsigned_lem (digits (suc n) n ++ d ∷ s)
      (Numeral-append (digits (suc n) n) (d ∷ s) (digits-Numeral n n))
    ∙ ap some (
        scan-append 0 (digits (suc n) n) (d ∷ s) (digits-AllDigits (suc n) n)
        ∙ ap (λ m. scan m (d ∷ s)) (scan-digits (suc n) n (omega arith))
        ∙ scan_stop n d s h)
