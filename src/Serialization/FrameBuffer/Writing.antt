-- ===== src/Serialization/FrameBuffer/Writing.antt =====
-- `write` appends to the contents; `size` measures them; the conversion to a vector copies them.
use mathlib.Core.List.{foldl}
use cpp_prototype.Common.{
  ℕ, ◌+◌, ◌-◌, ◌%◌, ◌^◌, ◌<◌, ◌≡◌, sym, ap, ◌∙◌, List, [], ◌∷◌, ◌++◌, append_assoc, append-nil,
  Bytes, length, drop, concat, replicate, length-append, length-drop, concat-append, arith, ok, err,
  undefined,
}
use cpp_prototype.Serialization.FrameBuffer.{
  FrameBuffer, size, write, through_int, to_vector, network_long_to_buf, buf_to_network_long,
}
use cpp_prototype.Serialization.FrameBuffer.Contents.{
  unread, contents, OffsetFits, IsValid, unread-zero,
}

unread-append :
    (fragments : List Bytes) (offset : ℕ) (buf : Bytes)
    → OffsetFits fragments offset
    → unread (fragments ++ buf ∷ []) offset ≡ unread fragments offset ++ buf
unread-append [] offset buf v = rw (v, append-nil buf)
unread-append (front ∷ rest) offset buf v = simp (concat-append, append-nil, append_assoc)

pub contents-write :
    (b : FrameBuffer) (buf : Bytes) → IsValid b → contents (write b buf) ≡ contents b ++ buf
unfolding write
contents-write b buf v = unread-append b.fragments b.offset buf v

OffsetFits-append :
    (fragments : List Bytes) (offset : ℕ) (buf : Bytes)
    → OffsetFits fragments offset
    → OffsetFits (fragments ++ buf ∷ []) offset
OffsetFits-append [] offset buf v = omega arith
OffsetFits-append (front ∷ rest) offset buf v = v

pub write-IsValid : (b : FrameBuffer) (buf : Bytes) → IsValid b → IsValid (write b buf)
unfolding write
write-IsValid b buf v = OffsetFits-append b.fragments b.offset buf v

-- A sum of sizes below 2 ^ 31 comes through the int unchanged.
sizes-exact :
    (fragments : List Bytes) (sum : ℕ)
    → sum + length (concat fragments) < 2 ^ 31
    → foldl (λ lhs rhs. through_int ((lhs + length rhs) % 2 ^ 64)) sum fragments
      ≡ sum + length (concat fragments)
unfolding through_int
sizes-exact [] sum h = omega arith
sizes-exact (front ∷ rest) sum h = rw kept (
    sizes-exact rest (sum + length front) (omega (arith, length-append front (concat rest)))
    ∙ omega (arith, length-append front (concat rest)))
  where
    kept : through_int ((sum + length front) % 2 ^ 64) ≡ sum + length front
    kept = ground (arith, length-append front (concat rest))

length-contents :
    (fragments : List Bytes) (offset : ℕ)
    → OffsetFits fragments offset
    → length (unread fragments offset) + offset ≡ length (concat fragments)
length-contents [] offset v = omega arith
length-contents (front ∷ rest) offset v = omega (
  arith,
  length-append (drop offset front) (concat rest),
  length-append front (concat rest),
  length-drop offset front,
)

module _ (b : FrameBuffer) (valid : IsValid b) (small : length (concat b.fragments) < 2 ^ 31) where
  -- While the fragments hold fewer than 2 ^ 31 bytes, `size` counts the unread bytes.
  pub size-length : size b ≡ length (contents b)
  unfolding size
  size-length =
      rw (sizes-exact b.fragments 0 (omega arith))
        (omega (arith, length-contents b.fragments b.offset valid))

  unread_count : length (contents b) + b.offset ≡ length (concat b.fragments)
  unread_count = length-contents b.fragments b.offset valid

  -- Converting a valid buffer whose first fragment has been read in part, with fewer than 2 ^ 31
  -- bytes in its fragments, is undefined behaviour: the copy overruns the vector.
  pub to_vector-undefined : 0 < b.offset → to_vector b ≡ err undefined
  unfolding to_vector
  to_vector-undefined h = ground (arith, size-length, unread_count)

  -- A valid buffer of which nothing has been read, with fewer than 2 ^ 31 bytes, converts to the
  -- four bytes of its length, the highest first, and its contents.
  pub to_vector-unread :
      b.offset ≡ 0 → to_vector b ≡ ok (network_long_to_buf (length (contents b)) ++ contents b)
  unfolding to_vector
  to_vector-unread h = ground (
    arith,
    size-length,
    unread_count,
    ap (λ (n : ℕ). network_long_to_buf (size b % 2 ^ 32) ++ concat b.fragments ++ replicate n 0)
        no_gap,
    ap (λ (n : ℕ). network_long_to_buf n ++ concat b.fragments ++ []) low,
    append_assoc (network_long_to_buf (length (contents b))) (concat b.fragments) [],
    ap (λ (bs : Bytes). network_long_to_buf (length (contents b)) ++ bs) whole,
  )
    where
      no_gap : (4 + size b) % 2 ^ 64 - (4 + length (concat b.fragments)) ≡ 0
      no_gap = omega (arith, size-length, unread_count)

      low : size b % 2 ^ 32 ≡ length (contents b)
      low = omega (arith, size-length, unread_count)

      whole : concat b.fragments ++ [] ≡ contents b
      whole = append-nil _ ∙ sym (ap (unread b.fragments) h ∙ unread-zero b.fragments)

pub long-to_buf :
    (n : ℕ) (rest : Bytes) → n < 2 ^ 32 → buf_to_network_long (network_long_to_buf n ++ rest) ≡ ok n
unfolding buf_to_network_long network_long_to_buf
long-to_buf n rest h = ap ok (omega arith)
