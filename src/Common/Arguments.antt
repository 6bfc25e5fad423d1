-- ===== src/Common/Arguments.antt =====
-- The arguments of a command line, as the loops of src/server/options.cpp and
-- src/clients/client/options.cpp take them: an option, and then its values.
use Prim.Native.Nat.{◌≤◌}
use mathlib.Core.Path.{◌≡◌, refl}
use mathlib.Core.Bool.{Bool, true, false}
use mathlib.Core.List.{List, [], ◌∷◌}
use native.Mathlib.Omega.{arith}
use cpp_prototype.Common.Lists.{Bytes, length}
use cpp_prototype.Common.Results.{
  Outcome, ok, err, IsException, ◌>>=◌, duplicate_argument, missing_argument,
}
use cpp_prototype.Common.Tests.{if◌then◌else◌}

-- What is set, and the arguments that are left.
abbrev pub Taken {ℓ} : Type ℓ → Type ℓ
Taken A = A × List Bytes

module _ {ℓ} {A : Type ℓ} where
  -- `argv[argi++]`, where there is one more argument.
  abbrev pub take_one : List Bytes → (Bytes → Outcome A) → Outcome (Taken A)
  take_one [] f = err missing_argument
  take_one (value ∷ rest) f = f value >>= (λ o. ok (o, rest))

  abbrev pub take_two : List Bytes → (Bytes → Bytes → Outcome A) → Outcome (Taken A)
  take_two [] f = err missing_argument
  take_two (value ∷ []) f = err missing_argument
  take_two (value ∷ next ∷ rest) f = f value next >>= (λ o. ok (o, rest))

  -- An argument that may be given once.
  abbrev pub once : Bool → Outcome (Taken A) → Outcome (Taken A)
  once is_given taken = if is_given then err duplicate_argument else taken

  abbrev pub and_on {κ} :
      {B : Type κ} → Outcome (Taken A) → (List Bytes → A → Outcome B) → Outcome B
  and_on (err e) f = err e
  and_on (ok (o, args)) f = f args o

  -- No more arguments are left than there were.
  abbrev pub Shrinks : List Bytes → Outcome (Taken A) → Type ℓ
  Shrinks args t = (o : A) (rest : List Bytes) → t ≡ ok (o, rest) → length rest ≤ length args

  after-Shrinks :
      (args rest : List Bytes) (r : Outcome A)
      → length rest ≤ length args
      → Shrinks args (r >>= (λ o. ok (o, rest)))
  after-Shrinks args rest (ok o) h o' rest' e = ground (arith, e, h)
  after-Shrinks args rest (err x) h o' rest' e = absurd cc

  pub take_one-Shrinks :
      (args : List Bytes) (f : Bytes → Outcome A) → Shrinks args (take_one args f)
  take_one-Shrinks [] f = λ o rest e. absurd cc
  take_one-Shrinks (value ∷ args) f = after-Shrinks (value ∷ args) args (f value) (omega arith)

  pub take_two-Shrinks :
      (args : List Bytes) (f : Bytes → Bytes → Outcome A) → Shrinks args (take_two args f)
  take_two-Shrinks [] f = λ o rest e. absurd cc
  take_two-Shrinks (value ∷ []) f = λ o rest e. absurd cc
  take_two-Shrinks (value ∷ next ∷ args) f =
      after-Shrinks (value ∷ next ∷ args) args (f value next) (omega arith)

  pub once-Shrinks :
      (args : List Bytes) (b : Bool) (t : Outcome (Taken A))
      → Shrinks args t
      → Shrinks args (once b t)
  once-Shrinks args true t h = λ o rest e. absurd cc
  once-Shrinks args false t h = h

  pub and_on_fuel {κ} :
      {B : Type κ} (args : List Bytes) (t : Outcome (Taken A)) (f g : List Bytes → A → Outcome B)
      → Shrinks args t
      → ((rest : List Bytes) (o : A) → length rest ≤ length args → f rest o ≡ g rest o)
      → and_on t f ≡ and_on t g
  and_on_fuel args (err e) f g s h = refl
  and_on_fuel args (ok (o, rest)) f g s h = h rest o (s o rest refl)

-- What is set has a property, or there is an exception of the source.
module _ {ℓ} {A : Type ℓ} (P : A → Type 0) where
  abbrev pub Sets : Outcome A → Type 0
  Sets (ok o) = P o
  Sets (err e) = IsException e

  abbrev pub Takes : Outcome (Taken A) → Type 0
  Takes (ok (o, rest)) = P o
  Takes (err e) = IsException e

  after-Takes : (rest : List Bytes) (r : Outcome A) → Sets r → Takes (r >>= (λ o. ok (o, rest)))
  after-Takes rest (ok o) h = h
  after-Takes rest (err x) h = h

  pub take_one-Takes :
      (args : List Bytes) (f : Bytes → Outcome A)
      → ((value : Bytes) → Sets (f value))
      → Takes (take_one args f)
  take_one-Takes [] f h = tt
  take_one-Takes (value ∷ args) f h = after-Takes args (f value) (h value)

  pub take_two-Takes :
      (args : List Bytes) (f : Bytes → Bytes → Outcome A)
      → ((value next : Bytes) → Sets (f value next))
      → Takes (take_two args f)
  take_two-Takes [] f h = tt
  take_two-Takes (value ∷ []) f h = tt
  take_two-Takes (value ∷ next ∷ args) f h = after-Takes args (f value next) (h value next)

  pub once-Takes : (b : Bool) (t : Outcome (Taken A)) → Takes t → Takes (once b t)
  once-Takes true t h = tt
  once-Takes false t h = h
