-- ===== src/Serialization/FrameBuffer/Contents.antt =====
-- The frame buffer as the list of its unread bytes.
use Prim.Native.Nat.{zero-le}
use cpp_prototype.Common.{
  ℕ, ◌≤◌, ◌≡◌, refl, ap, ◌∙◌, List, [], ◌∷◌, ◌++◌, Bytes, length, drop, concat, Outcome, ok,
}
use cpp_prototype.Serialization.FrameBuffer.{FrameBuffer}

-- The unread bytes of a deque whose first fragment has been read up to an offset.
abbrev pub unread : List Bytes → ℕ → Bytes
unread [] offset = []
unread (front ∷ rest) offset = drop offset front ++ concat rest

abbrev pub contents : FrameBuffer → Bytes
contents b = unread b.fragments b.offset

abbrev pub OffsetFits : List Bytes → ℕ → Type 0
OffsetFits [] offset = offset ≡ 0
OffsetFits (front ∷ rest) offset = offset ≤ length front

abbrev pub IsValid : FrameBuffer → Type 0
IsValid b = OffsetFits b.fragments b.offset

-- Some valid buffer is left, with the given contents.
abbrev pub Leaves {ℓ} : {A : Type ℓ} → Outcome (A × FrameBuffer) → A → Bytes → Type ℓ
Leaves r v rest = (b : FrameBuffer) × (r ≡ ok (v, b)) × IsValid b × (contents b ≡ rest)

pub unread-zero : (fragments : List Bytes) → unread fragments 0 ≡ concat fragments
unread-zero [] = refl
unread-zero (front ∷ rest) = refl

pub OffsetFits-zero : (fragments : List Bytes) → OffsetFits fragments 0
OffsetFits-zero [] = refl
OffsetFits-zero (front ∷ rest) = zero-le

pub Leaves-eq {ℓ} :
    {A : Type ℓ} {r s : Outcome (A × FrameBuffer)} {v w : A} {xs ys : Bytes}
    → r ≡ s
    → w ≡ v
    → ys ≡ xs
    → Leaves s w ys
    → Leaves r v xs
Leaves-eq e f g (b, p, valid, q) = (b, e ∙ p ∙ ap (λ u. ok (u, b)) f, valid, q ∙ g)
