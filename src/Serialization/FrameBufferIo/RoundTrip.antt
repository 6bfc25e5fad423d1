-- ===== src/Serialization/FrameBufferIo/RoundTrip.antt =====
-- Each `<<` writes the wire format of its value, and the matching `>>` reads it back.
use cpp_prototype.Common.{
  ℕ, ◌%◌, ◌^◌, ◌≤◌, ◌<◌, ◌≡◌, refl, ap, Bool, true, false, List, [], ◌∷◌, Bytes, length, All,
  length-append, take-append, drop-append, arith, Outcome, ok, err, size_too_big,
}
use cpp_prototype.Common.Key.{Key}
use cpp_prototype.Common.Set.{Set, insert}
use cpp_prototype.Common.Int.{ℤ, IsInt32, to_uint32, to_int32-to_uint32, to_uint32-lt}
use cpp_prototype.Serialization.FrameBuffer.{
  FrameBuffer, read, write, network_long_to_buf, buf_to_network_long,
}
use cpp_prototype.Serialization.FrameBuffer.Contents.{Leaves-eq}
use cpp_prototype.Serialization.FrameBuffer.Reading.{read-Leaves}
use cpp_prototype.Serialization.FrameBuffer.Writing.{contents-write, write-IsValid, long-to_buf}
use cpp_prototype.Serialization.FrameBufferIo.{
  Reader, Writer, lift, first, write_char, read_char, write_bool, read_bool, write_uint32,
  read_uint32, write_size, read_size, write_int32, read_int32, write_string, read_string,
  write_items, write_vector, read_items, read_vector, write_set, read_into, read_set,
}
use cpp_prototype.Serialization.FrameBufferIo.Wire.{
  wire_bool, wire_int32, wire_string, wire_items, wire_vector, Fits, Reads, Reads-pure, Reads-bind,
  Reads-map, Writes, Wrote-nothing, Wrote-then,
}

-- The buffer's own `read`, at the length of what is there.
read-Reads : (bs : Bytes) → Reads (read (length bs)) bs bs
read-Reads bs = record {
  at = λ b rest valid h.
      Leaves-eq refl (rw h (take-append bs rest)) (rw h (drop-append bs rest))
        (read-Leaves (length bs) b valid (rw h (omega (arith, length-append bs rest))));
}

lift-Reads {ℓ} : {A : Type ℓ} (r : Outcome A) (v : A) → r ≡ ok v → Reads (lift r) v []
lift-Reads r v e = rw e (Reads-pure v)

write-Writes : (bs : Bytes) → Writes (λ b. ok (write b bs)) bs
write-Writes bs = record {
  at = λ b valid. record {
    after = write b bs;
    returned = refl;
    is_valid = write-IsValid b bs valid;
    appended = contents-write b bs valid;
    same_offset = unfold write in refl;
  };
}

pub read_char-Reads : (c : ℕ) → Reads read_char c (c ∷ [])
unfolding read_char
read_char-Reads c =
    Reads-bind (read 1) (c ∷ []) (read-Reads (c ∷ [])) (λ buf. lift (first buf)) [] (Reads-pure c)

pub write_char-Writes : (c : ℕ) → Writes (write_char c) (c ∷ [])
unfolding write_char
write_char-Writes c = write-Writes (c ∷ [])

pub read_bool-Reads : (v : Bool) → Reads read_bool v (wire_bool v)
unfolding read_bool
read_bool-Reads true = Reads-map read_char (1 ∷ []) (read_char-Reads 1) _ refl
read_bool-Reads false = Reads-map read_char (0 ∷ []) (read_char-Reads 0) _ refl

pub write_bool-Writes : (v : Bool) → Writes (write_bool v) (wire_bool v)
unfolding write_bool
write_bool-Writes true = write-Writes (1 ∷ [])
write_bool-Writes false = write-Writes (0 ∷ [])

pub read_uint32-Reads : (i : ℕ) → i < 2 ^ 32 → Reads read_uint32 i (network_long_to_buf i)
unfolding read_uint32 network_long_to_buf
read_uint32-Reads i h =
    Reads-bind (read 4) (network_long_to_buf i) (read-Reads (network_long_to_buf i))
      (λ buf. lift (buf_to_network_long buf)) [] (lift-Reads _ i (long-to_buf i [] h))

write_uint32-Writes : (i : ℕ) → Writes (write_uint32 i) (network_long_to_buf i)
unfolding write_uint32
write_uint32-Writes i = write-Writes (network_long_to_buf i)

fitting_size : (l : ℕ) (b : FrameBuffer) → l < 2 ^ 32 → write_size l b ≡ write_uint32 l b
unfolding write_size
fitting_size l b h = ground (arith, ap (λ n. write_uint32 n b) unchanged)
  where
    unchanged : l % 2 ^ 32 ≡ l
    unchanged = omega arith

pub write_size-Writes : (l : ℕ) → l < 2 ^ 32 → Writes (write_size l) (network_long_to_buf l)
write_size-Writes l h = record {
  at = λ b valid. rw (fitting_size l b h) ((write_uint32-Writes l).at b valid);
}

-- A length over 2 ^ 32 - 1 is an exception, and nothing is written.
pub write_size-err : (l : ℕ) (b : FrameBuffer) → 2 ^ 32 ≤ l → write_size l b ≡ err size_too_big
unfolding write_size
write_size-err l b h = ground arith

pub read_size-Reads : (l : ℕ) → l < 2 ^ 32 → Reads read_size l (network_long_to_buf l)
unfolding read_size
read_size-Reads = read_uint32-Reads

pub read_int32-Reads : (i : ℤ) → IsInt32 i → Reads read_int32 i (wire_int32 i)
unfolding read_int32
read_int32-Reads i h =
    Reads-map read_uint32 (wire_int32 i) (read_uint32-Reads (to_uint32 i) (to_uint32-lt i)) _
      (to_int32-to_uint32 i h)

pub write_int32-Writes : (i : ℤ) → Writes (write_int32 i) (wire_int32 i)
unfolding write_int32
write_int32-Writes i = write_uint32-Writes (to_uint32 i)

pub read_string-Reads : (s : Bytes) → Fits s → Reads read_string s (wire_string s)
unfolding read_string
read_string-Reads s h =
    Reads-bind read_size (network_long_to_buf (length s)) (read_size-Reads (length s) h)
      (λ l. read l) s (read-Reads s)

pub write_string-Writes : (s : Bytes) → Fits s → Writes (write_string s) (wire_string s)
unfolding write_string
write_string-Writes s h = record {
  at = λ b valid. Wrote-then ((write_size-Writes (length s) h).at b valid) (write-Writes s);
}

module _ {ℓ} {A : Type ℓ} (wire : A → Bytes) (Good : A → Type 0) where
  read_items-Reads :
      (r : Reader A)
      → ((x : A) → Good x → Reads r x (wire x))
      → (xs : List A) → All Good xs
      → Reads (read_items (length xs) r) xs (wire_items wire xs)
  unfolding read_items
  read_items-Reads r each [] good = Reads-pure []
  read_items-Reads r each (x ∷ xs) good =
      Reads-bind r (wire x) (each x good.0) _ (wire_items wire xs) (
        Reads-map (read_items (length xs) r) (wire_items wire xs)
          (read_items-Reads r each xs good.1) (λ ys. x ∷ ys) refl)

  pub read_vector-Reads :
      (r : Reader A)
      → ((x : A) → Good x → Reads r x (wire x))
      → (xs : List A) → Fits xs
      → All Good xs
      → Reads (read_vector r) xs (wire_vector wire xs)
  unfolding read_vector
  read_vector-Reads r each xs h good =
      Reads-bind read_size (network_long_to_buf (length xs)) (read_size-Reads (length xs) h)
        (λ l. read_items l r) (wire_items wire xs) (read_items-Reads r each xs good)

  write_items-Writes :
      (w : A → Writer)
      → ((x : A) → Good x → Writes (w x) (wire x))
      → (xs : List A) → All Good xs
      → Writes (write_items w xs) (wire_items wire xs)
  unfolding write_items
  write_items-Writes w each [] good = record { at = λ b valid. Wrote-nothing b valid }
  write_items-Writes w each (x ∷ xs) good = record {
    at = λ b valid. Wrote-then ((each x good.0).at b valid) (write_items-Writes w each xs good.1);
  }

  pub write_vector-Writes :
      (w : A → Writer)
      → ((x : A) → Good x → Writes (w x) (wire x))
      → (xs : List A) → Fits xs
      → All Good xs
      → Writes (write_vector w xs) (wire_vector wire xs)
  unfolding write_vector
  write_vector-Writes w each xs h good = record {
    at = λ b valid.
        Wrote-then ((write_size-Writes (length xs) h).at b valid)
          (write_items-Writes w each xs good);
  }

-- The elements of a list put into a set, one after the other.
abbrev pub inserted {ℓ} : {A : Type ℓ} ⦃key : Key A⦄ → List A → Set A → Set A
inserted [] v = v
inserted (x ∷ xs) v = inserted xs (insert x v)

module _ {ℓ} {A : Type ℓ} ⦃key : Key A⦄ (wire : A → Bytes) (Good : A → Type 0) where
  read_into-Reads :
      (r : Reader A)
      → ((x : A) → Good x → Reads r x (wire x))
      → (xs : List A) → All Good xs
      → (v : Set A) → Reads (read_into (length xs) r v) (inserted xs v) (wire_items wire xs)
  unfolding read_into
  read_into-Reads r each [] good v = Reads-pure v
  read_into-Reads r each (x ∷ xs) good v =
      Reads-bind r (wire x) (each x good.0) _ (wire_items wire xs)
        (read_into-Reads r each xs good.1 (insert x v))

  pub read_set-Reads :
      (r : Reader A)
      → ((x : A) → Good x → Reads r x (wire x))
      → (xs : List A) → Fits xs
      → All Good xs
      → (v : Set A) → Reads (read_set r v) (inserted xs v) (wire_vector wire xs)
  unfolding read_set
  read_set-Reads r each xs h good v =
      Reads-bind read_size (network_long_to_buf (length xs)) (read_size-Reads (length xs) h)
        (λ l. read_into l r v) (wire_items wire xs) (read_into-Reads r each xs good v)

  pub write_set-Writes :
      (w : A → Writer)
      → ((x : A) → Good x → Writes (w x) (wire x))
      → (v : Set A) → Fits v
      → All Good v
      → Writes (write_set w v) (wire_vector wire v)
  unfolding write_set
  write_set-Writes w each v h good = record {
    at = λ b valid.
        Wrote-then ((write_size-Writes (length v) h).at b valid)
          (write_items-Writes wire Good w each v good);
  }
