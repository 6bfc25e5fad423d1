-- ===== src/Io/TcpSocketPollHandler/Pending.antt =====
-- The write queue of a handler as the bytes that are still to be written.
use cpp_prototype.Common.{
  ℕ, ◌+◌, ◌≤◌, ◌≡◌, ◌⊎◌, inl, inr, refl, sym, ap, ◌∙◌, List, [], ◌∷◌, ◌++◌, append_assoc, Bytes,
  length, take, drop, length-drop, length-take, drop-drop, drop-all, take-take, take-drop, All,
  arith,
}
use cpp_prototype.Io.TcpSocketPollHandler.{Pending, advance}

-- What is still to be written.
unfoldable pub pending : List Pending → Bytes
pending [] = []
pending ((buf, offset) ∷ rest) = drop offset buf ++ pending rest

-- No offset lies behind the end of its buffer.
abbrev pub InBounds : List Pending → Type 0
InBounds = All (λ (p : Pending). p.1 ≤ length p.0)

pub pending-append : (p q : List Pending) → pending (p ++ q) ≡ pending p ++ pending q
unfolding pending
pending-append [] q = refl
pending-append ((buf, offset) ∷ p) q =
    ap (◌++◌ (drop offset buf)) (pending-append p q)
    ∙ sym (append_assoc (drop offset buf) (pending p) (pending q))

pub queue_cases :
    (q : List Pending) → (q ≡ []) ⊎ ((p : Pending) × (rest : List Pending) × (q ≡ p ∷ rest))
queue_cases [] = inl refl
queue_cases (p ∷ rest) = inr (p, rest, refl)

pending-advance :
    (n : ℕ) (buf : Bytes) (offset : ℕ) (rest : List Pending)
    → pending (advance n buf offset rest) ≡ drop n (drop offset buf) ++ pending rest
unfolding pending advance
pending-advance n buf offset rest =
    ground (arith, drop-drop offset n buf, drop-all (offset + n) buf)

-- The `n` bytes that have been written are those that are no longer pending.
pub take-advance :
    (n count : ℕ) (buf : Bytes) (offset : ℕ) (rest : List Pending)
    → n ≤ length (take count (drop offset buf))
    → take n (take count (drop offset buf)) ++ pending (advance n buf offset rest)
      ≡ pending ((buf, offset) ∷ rest)
unfolding pending
take-advance n count buf offset rest k =
    let e =
      take-take n count (drop offset buf) (omega (arith, length-take count (drop offset buf))) in
    rw (e, pending-advance n buf offset rest)
      (sym (append_assoc (take n (drop offset buf)) (drop n (drop offset buf)) (pending rest))
        ∙ ap (λ b. b ++ pending rest) (take-drop n (drop offset buf)))

pub advance-InBounds :
    (n count : ℕ) (buf : Bytes) (offset : ℕ) (rest : List Pending)
    → InBounds ((buf, offset) ∷ rest)
    → n ≤ length (take count (drop offset buf))
    → InBounds (advance n buf offset rest)
unfolding advance
advance-InBounds n count buf offset rest h k =
    ground (arith, length-take count (drop offset buf), length-drop offset buf)
