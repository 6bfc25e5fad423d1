-- ===== src/Common/Results.antt =====
-- The outcome of code that may throw, or whose behaviour is undefined.

use mathlib.Core.Path.{◌≡◌, refl, subst}
use mathlib.Core.Logic.{◌⊎◌, inl, inr}

-- `undefined` stands for undefined behaviour, such as `front()` of an empty deque; `out_of_fuel`
-- is the model's own, and is shown never to occur. The others are the exceptions of the source.
pub data Error : Type 0 where
  undefined out_of_fuel length_error size_too_big invalid_message unhandled_message regex_error
        no_separator invalid_record no_file unhandled_cipher missing_salt salt_too_long
        handshake_failed verify_failed no_certificate shutdown_failed invalid_state write_failed
        close_failed accept_failed read_failed bad_conversion invalid_endpoint invalid_port
        wrong_parts unknown_role invalid_argument out_of_range terminated poll_failed
        duplicate_argument missing_argument invalid_option :
      Error

-- An exception of the source.
abbrev pub IsException : Error → Type 0
IsException undefined = ⊥
IsException out_of_fuel = ⊥
IsException _ = Unit

pub data Outcome {ℓ} (A : Type ℓ) : Type ℓ where
  ok : A → Outcome A
  err : Error → Outcome A

infixl 5 ◌>>=◌
abbrev pub ◌>>=◌ {ℓ κ} : {A : Type ℓ} {B : Type κ} → Outcome A → (A → Outcome B) → Outcome B
ok a >>= f = f a
err e >>= f = err e

pub Outcome-cases {ℓ} :
    {A : Type ℓ} (o : Outcome A) → ((a : A) × (o ≡ ok a)) ⊎ ((e : Error) × (o ≡ err e))
Outcome-cases (ok a) = inl (a, refl)
Outcome-cases (err e) = inr (e, refl)

pub ok-injective {ℓ} : {A : Type ℓ} {a b : A} → ok a ≡ ok b → a ≡ b
ok-injective h = cc

pub err-IsException {ℓ} :
    {A : Type ℓ} {x y : Error} → ◌≡◌ {A = Outcome A} (err x) (err y) → IsException x → IsException y
err-IsException h = subst IsException cc
