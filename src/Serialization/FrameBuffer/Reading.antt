-- ===== src/Serialization/FrameBuffer/Reading.antt =====
-- `FrameBuffer::read` takes the first bytes of the contents, or fails when there are too few.
use native.Mathlib.Nat.{le_refl}
use cpp_prototype.Common.{
  ℕ, zero, suc, ◌+◌, ◌-◌, ◌*◌, ◌≤◌, ◌<◌, min, ◌≡◌, refl, sym, ap, subst, ◌∙◌, List, [], ◌∷◌, ◌++◌,
  append_assoc, append-nil, Bytes, length, take, drop, concat, length-append, length-drop, take-all,
  drop-all, drop-drop, take-append_le, drop-append_le, take-append_ge, drop-append_ge, arith, ok,
  err, undefined, dec_lt, dec_le,
}
use cpp_prototype.Serialization.FrameBuffer.{FrameBuffer, read, read_loop}
use cpp_prototype.Serialization.FrameBuffer.Contents.{
  unread, contents, OffsetFits, IsValid, Leaves, Leaves-eq, unread-zero, OffsetFits-zero,
}

stop :
    (fuel : ℕ) (fragments : List Bytes) (offset : ℕ) (buf : Bytes)
    → read_loop (suc fuel) fragments offset 0 buf
      ≡ ok (buf, record { fragments = fragments; offset = offset })
unfolding read_loop
stop fuel [] offset buf = refl
stop fuel (front ∷ rest) offset buf = refl

module _ (fuel : ℕ) (front : Bytes) (rest : List Bytes) (offset left : ℕ) (buf : Bytes)
    (more : 0 < left) where
  pop :
      offset ≡ length front
      → read_loop (suc fuel) (front ∷ rest) offset left buf ≡ read_loop fuel rest 0 left buf
  unfolding read_loop
  pop h = ground arith

  copy_part :
      offset < length front
      → left ≤ length front - offset
      → read_loop (suc fuel) (front ∷ rest) offset left buf
        ≡ read_loop fuel (front ∷ rest) (offset + left) 0 (buf ++ take left (drop offset front))
  unfolding read_loop
  copy_part h k = ground (
    arith,
    ap
        (λ (n : ℕ).
          read_loop fuel (front ∷ rest) (offset + n) (left - n) (buf ++ take n (drop offset front)))
        min_left,
    ap
        (λ (n : ℕ).
          read_loop fuel (front ∷ rest) (offset + left) n (buf ++ take left (drop offset front)))
        none_left,
  )
    where
      min_left : min left (length front - offset) ≡ left
      min_left = omega arith

      none_left : left - left ≡ 0
      none_left = omega arith

  copy_all :
      offset < length front
      → length front - offset < left
      → read_loop (suc fuel) (front ∷ rest) offset left buf
        ≡ read_loop fuel
            (front ∷ rest)
            (length front)
            (left - (length front - offset))
            (buf ++ drop offset front)
  unfolding read_loop
  copy_all h k = ground (
    arith,
    ap
        (λ (n : ℕ).
          read_loop fuel (front ∷ rest) (offset + n) (left - n) (buf ++ take n (drop offset front)))
        min_left,
    ap
        (λ (n : ℕ).
          read_loop fuel (front ∷ rest) n (left - (length front - offset))
            (buf ++ take (length front - offset) (drop offset front)))
        at_end,
    ap
        (λ bs.
          read_loop fuel (front ∷ rest) (length front) (left - (length front - offset)) (buf ++ bs))
        (take-all (length front - offset) (drop offset front)
          (omega (arith, length-drop offset front))),
  )
    where
      min_left : min left (length front - offset) ≡ length front - offset
      min_left = omega arith

      at_end : offset + (length front - offset) ≡ length front
      at_end = omega arith

zero_lt_suc : {n : ℕ} → 0 < suc n
zero_lt_suc = omega arith

-- A first fragment that has been read to its end adds nothing.
unread_end :
    (front : Bytes) (rest : List Bytes) → unread (front ∷ rest) (length front) ≡ unread rest 0
unread_end front rest = rw (drop-all (length front) front (le_refl _), unread-zero rest)

-- More bytes than the first fragment has: they go on in the next.
module _ (front : Bytes) (rest : List Bytes) (offset left : ℕ)
    (beyond : length front - offset ≤ left) where
  take-unread :
      take left (unread (front ∷ rest) offset)
      ≡ drop offset front ++ take (left - (length front - offset)) (unread rest 0)
  take-unread =
      rw (unread-zero rest, ← length-drop offset front)
        (take-append_ge left (drop offset front) (concat rest)
          (omega (arith, length-drop offset front)))

  drop-unread :
      drop left (unread (front ∷ rest) offset)
      ≡ drop (left - (length front - offset)) (unread rest 0)
  drop-unread =
      rw (unread-zero rest, ← length-drop offset front)
        (drop-append_ge left (drop offset front) (concat rest)
          (omega (arith, length-drop offset front)))

length-unread :
    (front : Bytes) (rest : List Bytes) (offset : ℕ)
    → length (unread (front ∷ rest) offset) ≡ length front - offset + length (unread rest 0)
length-unread front rest offset =
    rw (unread-zero rest, length-append (drop offset front) (concat rest), length-drop offset front)

-- All of the first fragment is copied, and then it is popped.
exhaust :
    (fuel : ℕ) (front : Bytes) (rest : List Bytes) (offset left : ℕ) (buf : Bytes)
    → offset < length front
    → length front - offset < left
    → read_loop (suc (suc fuel)) (front ∷ rest) offset left buf
      ≡ read_loop fuel rest 0 (left - (length front - offset)) (buf ++ drop offset front)
exhaust fuel front rest offset left buf h k =
    copy_all (suc fuel) front rest offset left buf (omega arith) h k
    ∙ pop fuel front rest (length front) (left - (length front - offset)) _ (omega arith) refl

read_loop-Leaves :
    (fragments : List Bytes) (fuel offset left : ℕ) (buf : Bytes)
    → OffsetFits fragments offset
    → 2 * length fragments + 1 ≤ fuel
    → left ≤ length (unread fragments offset)
    → Leaves
        (read_loop fuel fragments offset left buf)
        (buf ++ take left (unread fragments offset))
        (drop left (unread fragments offset))
read_loop-Leaves fragments zero offset left buf v f h = absurd (omega arith)
read_loop-Leaves fragments (suc fuel) offset zero buf v f h = (
  record { fragments = fragments; offset = offset },
  rw append-nil (stop fuel fragments offset buf),
  v,
  refl,
)
read_loop-Leaves [] (suc fuel) offset (suc left) buf v f h = elim h [ ]
read_loop-Leaves (front ∷ rest) (suc zero) offset (suc left) buf v f h = absurd (omega arith)
read_loop-Leaves (front ∷ rest) (suc (suc fuel)) offset (suc left) buf v f h =
    elim (dec_lt offset (length front)) [
      | no ended ↦
          let at_end : offset ≡ length front = omega arith in
          let e : unread (front ∷ rest) offset ≡ unread rest 0 =
            ap (unread (front ∷ rest)) at_end ∙ unread_end front rest in
          Leaves-eq (pop (suc fuel) front rest offset (suc left) buf zero_lt_suc at_end)
            (ap (λ bs. buf ++ take (suc left) bs) (sym e)) (ap (drop (suc left)) (sym e))
            (read_loop-Leaves rest (suc fuel) 0 (suc left) buf (OffsetFits-zero rest) (omega arith)
              (subst (λ bs. suc left ≤ length bs) e h))
      | yes inside ↦ elim (dec_le (suc left) (length front - offset)) [
        | yes within ↦
            Leaves-eq
              (copy_part (suc fuel) front rest offset (suc left) buf zero_lt_suc inside within)
              (ap (◌++◌ buf) (
                sym (
                  take-append_le (suc left) (drop offset front) (concat rest)
                    (omega (arith, length-drop offset front)))))
              (ap (λ bs. bs ++ concat rest) (sym (drop-drop offset (suc left) front))
                ∙ sym (
                    drop-append_le (suc left) (drop offset front) (concat rest)
                      (omega (arith, length-drop offset front))))
              (
                record { fragments = front ∷ rest; offset = offset + suc left },
                stop fuel (front ∷ rest) _ _,
                omega arith,
                refl,
              )
        | no beyond ↦
            Leaves-eq (exhaust fuel front rest offset (suc left) buf inside (omega arith))
              (append_assoc buf (drop offset front) _
                ∙ ap (◌++◌ buf) (sym (take-unread front rest offset (suc left) (omega arith))))
              (sym (drop-unread front rest offset (suc left) (omega arith)))
              (read_loop-Leaves rest fuel 0 (suc left - (length front - offset))
                (buf ++ drop offset front) (OffsetFits-zero rest) (omega arith)
                (omega (arith, length-unread front rest offset)))
      ]
    ]

read_loop-undefined :
    (fragments : List Bytes) (fuel offset left : ℕ) (buf : Bytes)
    → OffsetFits fragments offset
    → 2 * length fragments + 1 ≤ fuel
    → length (unread fragments offset) < left
    → read_loop fuel fragments offset left buf ≡ err undefined
unfolding read_loop
read_loop-undefined fragments zero offset left buf v f h = absurd (omega arith)
read_loop-undefined [] (suc fuel) offset left buf v f h = ground arith
read_loop-undefined (front ∷ rest) (suc zero) offset left buf v f h = absurd (omega arith)
read_loop-undefined (front ∷ rest) (suc (suc fuel)) offset left buf v f h =
    elim (dec_lt offset (length front)) [
      | no ended ↦
          pop (suc fuel) front rest offset left buf (omega arith) (omega arith)
          ∙ read_loop-undefined rest (suc fuel) 0 left buf (OffsetFits-zero rest) (omega arith)
              (omega (arith, length-unread front rest offset))
      | yes inside ↦
          exhaust fuel front rest offset left buf inside
            (omega (arith, length-unread front rest offset))
          ∙ read_loop-undefined rest fuel 0 _ _ (OffsetFits-zero rest) (omega arith)
              (omega (arith, length-unread front rest offset))
    ]

-- On a valid buffer with at least `len` unread bytes, `read len` returns the first `len` of them,
-- across fragments, within the fuel given, and leaves a valid buffer that holds the others.
pub read-Leaves :
    (len : ℕ) (b : FrameBuffer)
    → IsValid b
    → len ≤ length (contents b)
    → Leaves (read len b) (take len (contents b)) (drop len (contents b))
unfolding read
read-Leaves len b v h = read_loop-Leaves b.fragments _ b.offset len [] v (le_refl _) h

-- On a valid buffer with fewer than `len` unread bytes, `read len` runs into undefined behaviour:
-- it asks for the front of an empty deque.
pub read-undefined :
    (len : ℕ) (b : FrameBuffer) → IsValid b → length (contents b) < len → read len b ≡ err undefined
unfolding read
read-undefined len b v h = read_loop-undefined b.fragments _ b.offset len [] v (le_refl _) h

-- Reading drops fragments, and adds none.
read_loop-shrinks :
    (fuel : ℕ) (fragments : List Bytes) (offset left : ℕ) (buf v : Bytes) (b : FrameBuffer)
    → read_loop fuel fragments offset left buf ≡ ok (v, b)
    → length (concat b.fragments) ≤ length (concat fragments)
unfolding read_loop
read_loop-shrinks zero fragments offset left buf v b h = cc
read_loop-shrinks (suc fuel) [] offset left buf v b h = ground arith
read_loop-shrinks (suc fuel) (front ∷ rest) offset left buf v b h = ground (
  arith,
  length-append front (concat rest),
  read_loop-shrinks fuel rest 0 left buf v b,
  read_loop-shrinks fuel (front ∷ rest) (offset + min left (length front - offset))
      (left - min left (length front - offset))
      (buf ++ take (min left (length front - offset)) (drop offset front)) v b,
)

pub read-shrinks :
    (len : ℕ) (b b' : FrameBuffer) (v : Bytes)
    → read len b ≡ ok (v, b')
    → length (concat b'.fragments) ≤ length (concat b.fragments)
unfolding read
read-shrinks len b b' v h = read_loop-shrinks _ b.fragments b.offset len [] v b' h
