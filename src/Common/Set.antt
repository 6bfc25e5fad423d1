-- ===== src/Common/Set.antt =====
-- std::set as the list of its elements in order.
use Prim.Native.Nat.{Ordering}
use mathlib.Core.Path.{◌≡◌, refl}
use mathlib.Core.Bool.{Bool, true, false, ◌&&◌}
use mathlib.Core.List.{List, [], ◌∷◌}
use native.Mathlib.Omega.{arith}
use cpp_prototype.Common.Tests.{if◌then◌else◌}
use cpp_prototype.Common.Key.{Key, same, same_iff}

abbrev pub Set {ℓ} : Type ℓ → Type ℓ
Set K = List K

unfoldable pub is_empty {ℓ} : {K : Type ℓ} → Set K → Bool
is_empty [] = true
is_empty (_ ∷ _) = false

module _ {ℓ} {K : Type ℓ} ⦃key : Key K⦄ where
  unfoldable pub contains : K → Set K → Bool
  contains k [] = false
  contains k (j ∷ s) = if same k j then true else contains k s

  unfoldable pub insert : K → Set K → Set K
  insert k [] = k ∷ []
  insert k (j ∷ s) = elim (key.order k j) [
    | Ordering.lt ↦ k ∷ j ∷ s
    | Ordering.eq ↦ j ∷ s
    | Ordering.gt ↦ j ∷ insert k s
  ]

  unfoldable pub erase : K → Set K → Set K
  erase k [] = []
  erase k (j ∷ s) = let rest = erase k s in if same k j then rest else j ∷ rest

  -- `std::set_intersection` of two ordered sets: the elements of the first that the second has.
  unfoldable pub intersection : Set K → Set K → Set K
  unfolding contains
  intersection [] t = []
  intersection (k ∷ s) t = let rest = intersection s t in if contains k t then k ∷ rest else rest

module _ {ℓ} {K : Type ℓ} ⦃key : Key K⦄ where
  pub contains-insert :
      (j k : K) (s : Set K) → contains j (insert k s) ≡ (if same j k then true else contains j s)
  unfolding contains insert
  contains-insert j k [] = refl
  contains-insert j k (i ∷ s) =
      ground (arith, contains-insert j k s, key.order_eq k i, same_iff j k, same_iff j i)

  pub contains-erase :
      (j k : K) (s : Set K) → contains j (erase k s) ≡ (if same j k then false else contains j s)
  unfolding contains erase
  contains-erase j k [] = ground arith
  contains-erase j k (i ∷ s) =
      ground (arith, contains-erase j k s, same_iff j k, same_iff j i, same_iff k i)

  pub contains-intersection :
      (j : K) (s t : Set K) → contains j (intersection s t) ≡ (contains j s && contains j t)
  unfolding contains intersection
  contains-intersection j [] t = refl
  contains-intersection j (i ∷ s) t = ground (arith, contains-intersection j s t, same_iff j i)

  pub is_empty-contains : (j : K) (s : Set K) → is_empty s ≡ true → contains j s ≡ false
  unfolding is_empty contains
  is_empty-contains j [] h = refl
  is_empty-contains j (k ∷ s) h = cc
