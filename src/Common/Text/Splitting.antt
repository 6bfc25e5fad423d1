-- ===== src/Common/Text/Splitting.antt =====
-- Parts that are joined are split again.
use Prim.Native.Nat.{ℕ}
use mathlib.Core.Path.{◌≡◌, refl, ap, ◌∙◌}
use mathlib.Core.Logic.{◌≢◌}
use mathlib.Core.List.{List, [], ◌∷◌, ◌++◌}
use native.Mathlib.Omega.{arith}
use cpp_prototype.Common.Lists.{Bytes, All}
use cpp_prototype.Common.Text.{parts, split}

-- The parts with a separator between them.
unfoldable pub join : ℕ → List Bytes → Bytes
join c [] = []
join c (part ∷ []) = part
join c (part ∷ next ∷ rest) = part ++ c ∷ join c (next ∷ rest)

-- A text without a character.
abbrev pub Lacks : ℕ → Bytes → Type 0
Lacks c = All (λ d. d ≢ c)

parts_one : (c : ℕ) (s : Bytes) → Lacks c s → parts c s ≡ s ∷ []
unfolding parts
parts_one c [] h = refl
parts_one c (d ∷ s) h = ground (arith, parts_one c s h.1, h.0)

parts-append : (c : ℕ) (s t : Bytes) → Lacks c s → parts c (s ++ c ∷ t) ≡ s ∷ parts c t
unfolding parts
parts-append c [] t h = ground arith
parts-append c (d ∷ s) t h = ground (arith, parts-append c s t h.1, h.0)

parts-join :
    (c : ℕ) (part : Bytes) (rest : List Bytes)
    → All (Lacks c) (part ∷ rest)
    → parts c (join c (part ∷ rest)) ≡ part ∷ rest
unfolding join
parts-join c part [] h = parts_one c part h.0
parts-join c part (next ∷ rest) h =
    parts-append c part (join c (next ∷ rest)) h.0 ∙ ap (◌∷◌ part) (parts-join c next rest h.1)

split_lem : (c : ℕ) (s : Bytes) → s ≢ [] → split c s ≡ parts c s
unfolding split
split_lem c [] h = absurd (h refl)
split_lem c (d ∷ s) h = refl

join-ne : (c : ℕ) (part : Bytes) (rest : List Bytes) → part ≢ [] → join c (part ∷ rest) ≢ []
unfolding join
join-ne c [] rest h e = h refl
join-ne c (d ∷ part) [] h e = cc
join-ne c (d ∷ part) (next ∷ rest) h e = cc

-- Parts without the separator, the first of them not empty.
pub split-join :
    (c : ℕ) (part : Bytes) (rest : List Bytes)
    → part ≢ []
    → All (Lacks c) (part ∷ rest)
    → split c (join c (part ∷ rest)) ≡ part ∷ rest
split-join c part rest n h =
    split_lem c (join c (part ∷ rest)) (join-ne c part rest n) ∙ parts-join c part rest h
