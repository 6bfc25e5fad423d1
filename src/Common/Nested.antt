-- ===== src/Common/Nested.antt =====
-- Maps whose values are maps or sets, read at two keys: the tables of the server's managers.
use mathlib.Core.Path.{◌≡◌}
use mathlib.Core.Bool.{Bool, false}
use mathlib.Core.Option.{Option, none, some}
use native.Mathlib.Omega.{arith}
use cpp_prototype.Common.Tests.{if◌then◌else◌}
use cpp_prototype.Common.Key.{Key, same}
use cpp_prototype.Common.Map.{Map, find, put, erase, find-put, find-erase}
use cpp_prototype.Common.Set.{Set, contains}

abbrev pub at_both {κ μ} : {J : Type κ} {V : Type μ} ⦃key : Key J⦄ → J → Option (Map J V) → Option V
at_both j none = none
at_both j (some m) = find j m

abbrev pub in_both {κ} : {J : Type κ} ⦃key : Key J⦄ → J → Option (Set J) → Bool
in_both j none = false
in_both j (some s) = contains j s

module _ {ℓ κ μ} {K : Type ℓ} {J : Type κ} {V : Type μ} ⦃key : Key K⦄ ⦃key' : Key J⦄ where
  unfoldable pub find2 : K → J → Map K (Map J V) → Option V
  find2 k j m = at_both j (find k m)

module _ {ℓ κ μ} {K : Type ℓ} {J : Type κ} {V : Type μ} ⦃key : Key K⦄ ⦃key' : Key J⦄ where
  pub find2-put :
      (k : K) (j : J) (k' : K) (n : Map J V) (m : Map K (Map J V))
      → find2 k j (put k' n m) ≡ (if same k k' then find j n else find2 k j m)
  unfolding find2
  find2-put k j k' n m = rw (find-put k k' n m) (ground arith)

  pub find2-erase :
      (k : K) (j : J) (k' : K) (m : Map K (Map J V))
      → find2 k j (erase k' m) ≡ (if same k k' then none else find2 k j m)
  unfolding find2
  find2-erase k j k' m = rw (find-erase k k' m) (ground arith)

module _ {ℓ κ} {K : Type ℓ} {J : Type κ} ⦃key : Key K⦄ ⦃key' : Key J⦄ where
  unfoldable pub contains2 : K → J → Map K (Set J) → Bool
  contains2 k j m = in_both j (find k m)

module _ {ℓ κ} {K : Type ℓ} {J : Type κ} ⦃key : Key K⦄ ⦃key' : Key J⦄ where
  pub contains2-put :
      (k : K) (j : J) (k' : K) (s : Set J) (m : Map K (Set J))
      → contains2 k j (put k' s m) ≡ (if same k k' then contains j s else contains2 k j m)
  unfolding contains2
  contains2-put k j k' s m = rw (find-put k k' s m) (ground arith)

  pub contains2-erase :
      (k : K) (j : J) (k' : K) (m : Map K (Set J))
      → contains2 k j (erase k' m) ≡ (if same k k' then false else contains2 k j m)
  unfolding contains2
  contains2-erase k j k' m = rw (find-erase k k' m) (ground arith)
