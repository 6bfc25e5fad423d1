-- ===== src/Common/Map.antt =====
-- std::map as the list of its entries in the order of their keys.
use Prim.Native.Nat.{Ordering}
use mathlib.Core.Path.{◌≡◌, refl}
use mathlib.Core.Bool.{Bool, true, false}
use mathlib.Core.Option.{Option, none, some}
use mathlib.Core.List.{List, [], ◌∷◌}
use native.Mathlib.Omega.{arith}
use cpp_prototype.Common.Tests.{if◌then◌else◌}
use cpp_prototype.Common.Key.{Key, same, same_iff, same_refl}
use cpp_prototype.Common.Set.{contains}

abbrev pub Map {ℓ κ} : Type ℓ → Type κ → Type (ℓ ⊔ κ)
Map K V = List (K × V)

abbrev pub is_some {ℓ} : {A : Type ℓ} → Option A → Bool
is_some none = false
is_some (some a) = true

module _ {ℓ κ} {K : Type ℓ} {V : Type κ} ⦃key : Key K⦄ where
  -- `m.find (k)`
  unfoldable pub find : K → Map K V → Option V
  find k [] = none
  find k ((j, v) ∷ m) = if same k j then some v else find k m

  -- `m[k] = v`
  unfoldable pub put : K → V → Map K V → Map K V
  put k v [] = (k, v) ∷ []
  put k v ((j, w) ∷ m) = elim (key.order k j) [
    | Ordering.lt ↦ (k, v) ∷ (j, w) ∷ m
    | Ordering.eq ↦ (k, v) ∷ m
    | Ordering.gt ↦ (j, w) ∷ put k v m
  ]

  -- `m.insert ({k, v})`: a key that is there keeps its value.
  unfoldable pub insert : K → V → Map K V → Map K V
  insert k v m = elim (find k m) [ none ↦ put k v m | some _ ↦ m ]

  -- `m.erase (k)`
  unfoldable pub erase : K → Map K V → Map K V
  erase k [] = []
  erase k ((j, v) ∷ m) = let rest = erase k m in if same k j then rest else (j, v) ∷ rest

  -- The keys in order: `for (auto& [k, _] : m)`.
  unfoldable pub keys : Map K V → List K
  keys [] = []
  keys ((j, v) ∷ m) = j ∷ keys m

  unfoldable pub is_empty : Map K V → Bool
  is_empty [] = true
  is_empty (_ ∷ _) = false

module _ {ℓ κ} {K : Type ℓ} {V : Type κ} ⦃key : Key K⦄ where
  pub find-put :
      (j k : K) (v : V) (m : Map K V) → find j (put k v m) ≡ (if same j k then some v else find j m)
  unfolding find put
  find-put j k v [] = refl
  find-put j k v ((i, w) ∷ m) =
      ground (arith, find-put j k v m, key.order_eq k i, same_iff j k, same_iff j i)

  pub find-insert :
      (j k : K) (v : V) (m : Map K V)
      → find k m ≡ none
      → find j (insert k v m) ≡ (if same j k then some v else find j m)
  unfolding insert
  find-insert j k v m h = rw (h, insert) (find-put j k v m)

  pub find-erase :
      (j k : K) (m : Map K V) → find j (erase k m) ≡ (if same j k then none else find j m)
  unfolding find erase
  find-erase j k [] = ground arith
  find-erase j k ((i, w) ∷ m) =
      ground (arith, find-erase j k m, same_iff j k, same_iff j i, same_iff k i)

  -- An empty map has no key, and only it.
  pub is_empty-find : (k : K) (m : Map K V) → is_empty m ≡ true → find k m ≡ none
  unfolding is_empty find
  is_empty-find k [] h = refl
  is_empty-find k (e ∷ m) h = cc

  pub keys-find : (k : K) (m : Map K V) → contains k (keys m) ≡ is_some (find k m)
  unfolding find keys contains
  keys-find k [] = refl
  keys-find k ((j, v) ∷ m) = ground (arith, keys-find k m)

  pub is_empty-of_find : (m : Map K V) → ((k : K) → find k m ≡ none) → is_empty m ≡ true
  unfolding is_empty find
  is_empty-of_find [] h = refl
  is_empty-of_find ((k, v) ∷ m) h = ground (arith, h k, same_refl k)
