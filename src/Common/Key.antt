-- ===== src/Common/Key.antt =====
-- Keys of std::map and std::set: a type with a total order, which fixes the order of iteration.
use Prim.Native.Nat.{ℕ, compare, Ordering, lt, eq, gt}
use mathlib.Core.Path.{◌≡◌, refl}
use mathlib.Core.Logic.{◌↔◌}
use mathlib.Core.Bool.{Bool, true, false}
use mathlib.Core.List.{[], ◌∷◌}
use native.Mathlib.Omega.{arith}
use cpp_prototype.Common.Lists.{Bytes}
use cpp_prototype.Common.Int.{ℤ, pos, negsuc}

pub record Key {ℓ} (K : Type ℓ) : Type ℓ where
  pub order : K → K → Ordering
  pub order_eq : (a b : K) → (order a b ≡ eq) ↔ (a ≡ b)
  pub order_flip : (a b : K) → order a b ≡ gt → order b a ≡ lt
  pub order_trans : (a b c : K) → order a b ≡ lt → order b c ≡ lt → order a c ≡ lt

-- Neither of two keys is less than the other.
abbrev pub same {ℓ} : {K : Type ℓ} ⦃key : Key K⦄ → K → K → Bool
same ⦃key⦄ a b = elim (key.order a b) [ Ordering.eq ↦ true | _ ↦ false ]

pub same_iff {ℓ} : {K : Type ℓ} ⦃key : Key K⦄ (a b : K) → (same a b ≡ true) ↔ (a ≡ b)
same_iff ⦃key⦄ a b = ground (arith, key.order_eq a b)

pub same_refl {ℓ} : {K : Type ℓ} ⦃key : Key K⦄ (a : K) → same a a ≡ true
same_refl a = (same_iff a a).1 refl

-- The address of an object, or the value of an enum.
pub ℕ-order_eq : (a b : ℕ) → (compare a b ≡ eq) ↔ (a ≡ b)
ℕ-order_eq a b = ground arith

pub ℕ-order_flip : (a b : ℕ) → compare a b ≡ gt → compare b a ≡ lt
ℕ-order_flip a b h = ground arith

pub ℕ-order_trans : (a b c : ℕ) → compare a b ≡ lt → compare b c ≡ lt → compare a c ≡ lt
ℕ-order_trans a b c h k = ground arith

instance abbrev pub ℕ_key : Key ℕ
ℕ_key = record {
  order = compare;
  order_eq = ℕ-order_eq;
  order_flip = ℕ-order_flip;
  order_trans = ℕ-order_trans;
}

-- std::string compares its chars as unsigned, the first first.
unfoldable pub lexicographic : Bytes → Bytes → Ordering
lexicographic [] [] = eq
lexicographic [] (b ∷ bs) = lt
lexicographic (a ∷ as') [] = gt
lexicographic (a ∷ as') (b ∷ bs) = elim (compare a b) [
  | Ordering.lt ↦ lt
  | Ordering.gt ↦ gt
  | Ordering.eq ↦ lexicographic as' bs
]

pub lexicographic-eq : (s t : Bytes) → (lexicographic s t ≡ eq) ↔ (s ≡ t)
unfolding lexicographic
lexicographic-eq [] [] = ground arith
lexicographic-eq [] (b ∷ bs) = ground arith
lexicographic-eq (a ∷ s) [] = ground arith
lexicographic-eq (a ∷ s) (b ∷ t) = ground (arith, lexicographic-eq s t)

pub lexicographic_flip : (s t : Bytes) → lexicographic s t ≡ gt → lexicographic t s ≡ lt
unfolding lexicographic
lexicographic_flip [] [] h = cc
lexicographic_flip [] (b ∷ t) h = cc
lexicographic_flip (a ∷ s) [] h = refl
lexicographic_flip (a ∷ s) (b ∷ t) h = ground (arith, lexicographic_flip s t)

pub lexicographic_trans :
    (s t u : Bytes) → lexicographic s t ≡ lt → lexicographic t u ≡ lt → lexicographic s u ≡ lt
unfolding lexicographic
lexicographic_trans [] [] u h k = cc
lexicographic_trans [] (b ∷ t) [] h k = cc
lexicographic_trans [] (b ∷ t) (c ∷ u) h k = refl
lexicographic_trans (a ∷ s) [] u h k = cc
lexicographic_trans (a ∷ s) (b ∷ t) [] h k = cc
lexicographic_trans (a ∷ s) (b ∷ t) (c ∷ u) h k = ground (arith, lexicographic_trans s t u)

instance abbrev pub bytes_key : Key Bytes
bytes_key = record {
  order = lexicographic;
  order_eq = lexicographic-eq;
  order_flip = lexicographic_flip;
  order_trans = lexicographic_trans;
}

unfoldable pub ℤ-compare : ℤ → ℤ → Ordering
ℤ-compare (pos m) (pos n) = compare m n
ℤ-compare (pos m) (negsuc n) = gt
ℤ-compare (negsuc m) (pos n) = lt
ℤ-compare (negsuc m) (negsuc n) = compare n m

pub ℤ-compare-eq : (i j : ℤ) → (ℤ-compare i j ≡ eq) ↔ (i ≡ j)
unfolding ℤ-compare
ℤ-compare-eq i j = ground arith

pub ℤ-compare_flip : (i j : ℤ) → ℤ-compare i j ≡ gt → ℤ-compare j i ≡ lt
unfolding ℤ-compare
ℤ-compare_flip i j h = ground arith

pub ℤ-compare_trans : (i j k : ℤ) → ℤ-compare i j ≡ lt → ℤ-compare j k ≡ lt → ℤ-compare i k ≡ lt
unfolding ℤ-compare
ℤ-compare_trans i j k h h' = ground arith

instance abbrev pub ℤ_key : Key ℤ
ℤ_key = record {
  order = ℤ-compare;
  order_eq = ℤ-compare-eq;
  order_flip = ℤ-compare_flip;
  order_trans = ℤ-compare_trans;
}
