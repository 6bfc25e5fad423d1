-- ===== src/Common/Text.antt =====
-- The functions of the standard library on texts that the server uses: std::stoi, the decimal form of
-- std::format, and std::views::split.
pub mod Decimal
pub mod Splitting
use Prim.Native.Nat.{ℕ, zero, suc, ◌+◌, ◌-◌, ◌*◌, ◌/◌, ◌%◌, ◌^◌, ◌≤◌, ◌<◌}
use mathlib.Core.Path.{◌≡◌, refl}
use mathlib.Core.Bool.{Bool, true, false, ◌&&◌, ◌||◌}
use mathlib.Core.Option.{Option, none, some}
use mathlib.Core.List.{List, [], ◌∷◌, ◌++◌}
use native.Mathlib.Omega.{arith}
use cpp_prototype.Common.Int.{ℤ, pos, negsuc}
use cpp_prototype.Common.Lists.{Bytes}
use cpp_prototype.Common.Results.{Outcome, ok, err, invalid_argument, out_of_range}
use cpp_prototype.Common.Tests.{ltb, leb, ◌==◌, if◌then◌else◌}

-- std::isspace in the C locale.
abbrev pub is_space : ℕ → Bool
is_space c = (c == b' ') || (leb 9 c && leb c 13)

abbrev pub is_digit : ℕ → Bool
is_digit c = leb b'0' c && leb c b'9'

unfoldable pub skip_space : Bytes → Bytes
skip_space [] = []
skip_space (c ∷ s) = let rest = skip_space s in if is_space c then rest else c ∷ s

-- The digits at the front, after `n`.
unfoldable pub scan : ℕ → Bytes → ℕ
scan n [] = n
scan n (c ∷ s) = let more = scan (n * 10 + (c - b'0')) s in if is_digit c then more else n

-- A number without a sign; what follows its digits is not looked at.
unfoldable pub unsigned : Bytes → Option ℕ
unsigned [] = none
unsigned (c ∷ s) = if is_digit c then some (scan 0 (c ∷ s)) else none

abbrev pub negate : ℕ → ℤ
negate zero = pos 0
negate (suc n) = negsuc n

-- A value within the limits of int.
abbrev pub positive : Option ℕ → Outcome ℤ
positive none = err invalid_argument
positive (some n) = if ltb n (2 ^ 31) then ok (pos n) else err out_of_range

abbrev pub negative : Option ℕ → Outcome ℤ
negative none = err invalid_argument
negative (some n) = if leb n (2 ^ 31) then ok (negate n) else err out_of_range

unfoldable pub signed : Bytes → Outcome ℤ
signed [] = err invalid_argument
signed (c ∷ s) =
    if c == b'-'
    then negative (unsigned s)
    else if c == b'+'
    then positive (unsigned s)
    else positive (unsigned (c ∷ s))

-- std::stoi, of an int with 32 bits.
unfoldable pub stoi : Bytes → Outcome ℤ
stoi s = signed (skip_space s)

-- The decimal form; a number has fewer digits than the fuel.
unfoldable pub digits : ℕ → ℕ → Bytes
digits zero n = []
digits (suc fuel) n =
    let front = digits fuel (n / 10) in
    if ltb n 10 then (b'0' + n) ∷ [] else front ++ (b'0' + n % 10) ∷ []

unfoldable pub decimal : ℕ → Bytes
decimal n = digits (suc n) n

unfoldable pub decimal_int : ℤ → Bytes
decimal_int (pos n) = decimal n
decimal_int (negsuc n) = b'-' ∷ decimal (suc n)

abbrev pub onto_first : ℕ → List Bytes → List Bytes
onto_first c [] = (c ∷ []) ∷ []
onto_first c (part ∷ parts) = (c ∷ part) ∷ parts

-- The parts of a text that is not empty: at least one.
unfoldable pub parts : ℕ → Bytes → List Bytes
parts c [] = [] ∷ []
parts c (d ∷ s) = let rest = parts c s in if d == c then [] ∷ rest else onto_first d rest

-- std::views::split, which makes no part of an empty text.
unfoldable pub split : ℕ → Bytes → List Bytes
split c [] = []
split c (d ∷ s) = parts c (d ∷ s)
