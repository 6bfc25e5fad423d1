-- ===== src/Common/Ordered.antt =====
-- The entries of a std::map stand in the order of their keys, so that no key stands twice.
use Prim.Native.Nat.{lt}
use mathlib.Core.Path.{◌≡◌, refl}
use mathlib.Core.Option.{none}
use mathlib.Core.List.{[], ◌∷◌}
use native.Mathlib.Omega.{arith}
use cpp_prototype.Common.Key.{Key}
use cpp_prototype.Common.Map.{Map, find, put, insert, erase}
use cpp_prototype.Common.Set
use cpp_prototype.Common.Set.{Set}

module _ {ℓ κ} {K : Type ℓ} {V : Type κ} ⦃key : Key K⦄ where
  -- A key is less than every key of the map.
  abbrev pub IsBelow : K → Map K V → Type 0
  IsBelow k [] = Unit {0}
  IsBelow k ((j, w) ∷ m) = (key.order k j ≡ lt) × IsBelow k m

  abbrev pub IsOrdered : Map K V → Type 0
  IsOrdered [] = Unit {0}
  IsOrdered ((k, v) ∷ m) = IsBelow k m × IsOrdered m

module _ {ℓ κ} {K : Type ℓ} {V : Type κ} ⦃key : Key K⦄ where
  IsBelow-trans : (i k : K) (m : Map K V) → key.order i k ≡ lt → IsBelow k m → IsBelow i m
  IsBelow-trans i k [] h b = tt
  IsBelow-trans i k ((j, w) ∷ m) h b = (key.order_trans i k j h b.0, IsBelow-trans i k m h b.1)

  IsBelow-put :
      (i k : K) (v : V) (m : Map K V) → key.order i k ≡ lt → IsBelow i m → IsBelow i (put k v m)
  unfolding put
  IsBelow-put i k v [] h b = (h, tt)
  IsBelow-put i k v ((j, w) ∷ m) h b = ground (arith, IsBelow-put i k v m h b.1)

  pub put-IsOrdered : (k : K) (v : V) (m : Map K V) → IsOrdered m → IsOrdered (put k v m)
  unfolding put
  put-IsOrdered k v [] o = (tt, tt)
  put-IsOrdered k v ((j, w) ∷ m) o = ground (
    arith,
    put-IsOrdered k v m o.1,
    IsBelow-put j k v m,
    IsBelow-trans k j m,
    key.order_flip k j,
    key.order_eq k j,
    o,
  )

  pub insert-IsOrdered : (k : K) (v : V) (m : Map K V) → IsOrdered m → IsOrdered (insert k v m)
  unfolding insert
  insert-IsOrdered k v m o = ground (arith, put-IsOrdered k v m o)

  IsBelow-erase : (i k : K) (m : Map K V) → IsBelow i m → IsBelow i (erase k m)
  unfolding erase
  IsBelow-erase i k [] b = tt
  IsBelow-erase i k ((j, w) ∷ m) b = ground (arith, IsBelow-erase i k m b.1, b)

  pub erase-IsOrdered : (k : K) (m : Map K V) → IsOrdered m → IsOrdered (erase k m)
  unfolding erase
  erase-IsOrdered k [] o = tt
  erase-IsOrdered k ((j, w) ∷ m) o =
      ground (arith, erase-IsOrdered k m o.1, IsBelow-erase j k m o.0, o)

  pub find-IsBelow : (k : K) (m : Map K V) → IsBelow k m → find k m ≡ none
  unfolding find
  find-IsBelow k [] b = refl
  find-IsBelow k ((j, w) ∷ m) b = ground (arith, find-IsBelow k m b.1, b)

-- The elements of a std::set stand in order, each once.
module _ {ℓ} {K : Type ℓ} ⦃key : Key K⦄ where
  abbrev pub IsLess : K → Set K → Type 0
  IsLess k [] = Unit {0}
  IsLess k (j ∷ s) = (key.order k j ≡ lt) × IsLess k s

  abbrev pub IsAscending : Set K → Type 0
  IsAscending [] = Unit {0}
  IsAscending (k ∷ s) = IsLess k s × IsAscending s

module _ {ℓ} {K : Type ℓ} ⦃key : Key K⦄ where
  IsLess-trans : (i k : K) (s : Set K) → key.order i k ≡ lt → IsLess k s → IsLess i s
  IsLess-trans i k [] h b = tt
  IsLess-trans i k (j ∷ s) h b = (key.order_trans i k j h b.0, IsLess-trans i k s h b.1)

  IsLess-insert :
      (i k : K) (s : Set K) → key.order i k ≡ lt → IsLess i s → IsLess i (Set.insert k s)
  unfolding Set.insert
  IsLess-insert i k [] h b = (h, tt)
  IsLess-insert i k (j ∷ s) h b = ground (arith, IsLess-insert i k s h b.1)

  pub insert-IsAscending : (k : K) (s : Set K) → IsAscending s → IsAscending (Set.insert k s)
  unfolding Set.insert
  insert-IsAscending k [] o = (tt, tt)
  insert-IsAscending k (j ∷ s) o = ground (
    arith,
    insert-IsAscending k s o.1,
    IsLess-insert j k s,
    IsLess-trans k j s,
    key.order_flip k j,
    o,
  )
