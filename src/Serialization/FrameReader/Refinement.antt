-- ===== src/Serialization/FrameReader/Refinement.antt =====
-- `FrameReader::write` implements the abstract reader, and never fails.
use cpp_prototype.Common.{
  ℕ, ◌+◌, ◌^◌, ◌≤◌, ◌<◌, ◌≡◌, refl, ap, subst, ◌∙◌, inl, inr, List, [], ◌∷◌, ◌++◌, Bytes, length,
  concat, take, drop, Option, none, some, leb, leb→le, Bool-cases, arith, ok, length-append,
  concat-append, append-nil,
}
use cpp_prototype.Serialization.FrameBuffer
use cpp_prototype.Serialization.FrameBuffer.{FrameBuffer, buf_to_network_long}
use cpp_prototype.Serialization.FrameBuffer.Contents.{contents, IsValid}
use cpp_prototype.Serialization.FrameBuffer.Reading.{read-Leaves, read-shrinks}
use cpp_prototype.Serialization.FrameBuffer.Writing.{contents-write, write-IsValid, size-length}
use cpp_prototype.Serialization.FrameBufferIo.{read_optional, read_size, read_uint32, lift}
use cpp_prototype.Serialization.FrameBufferIo.Wire.{bind-ok}
use cpp_prototype.Serialization.FrameReader.{FrameReader, read_len, read_frame, has_frame, write}
use cpp_prototype.Serialization.FrameReader.Abstract.{Abstract, number, take_len, take_frame, feed}

abbrev pub view : FrameReader → Abstract
view r = record { len = r.len; pending = contents r.fbuf; frames = r.frames }

-- A valid buffer that holds `bytes`. Its fragments, read or not, have `n` bytes at most, which is
-- less than 2 ^ 31, so that `size` is exact.
pub record Holds (b : FrameBuffer) (bytes : Bytes) (n : ℕ) : Type 0 where
  pub valid : IsValid b
  pub holds : contents b ≡ bytes
  pub kept : length (concat b.fragments) ≤ n
  pub small : n < 2 ^ 31

module _ (b : FrameBuffer) (bytes : Bytes) (n : ℕ) (h : Holds b bytes n) where
  size-Holds : FrameBuffer.size b ≡ length bytes
  size-Holds = size-length b h.valid (omega (arith, h.kept, h.small)) ∙ ap length h.holds

  read-Holds :
      (l : ℕ)
      → l ≤ length bytes
      → (b' : FrameBuffer) × (FrameBuffer.read l b ≡ ok (take l bytes, b'))
        × Holds b' (drop l bytes) n
  read-Holds l fits =
      let (b', e, valid, rest) = read-Leaves l b h.valid (rw h.holds fits) in
      (
        b',
        e ∙ ap (λ bs. ok (take l bs, b')) h.holds,
        record {
          valid = valid;
          holds = rest ∙ ap (drop l) h.holds;
          kept = omega (arith, read-shrinks l b b' _ e, h.kept);
          small = h.small;
        },
      )

  write-Holds :
      (buf : Bytes)
      → n + length buf < 2 ^ 31
      → Holds (FrameBuffer.write b buf) (bytes ++ buf) (n + length buf)
  write-Holds buf room = record {
    valid = write-IsValid b buf h.valid;
    holds = contents-write b buf h.valid ∙ ap (λ bs. bs ++ buf) h.holds;
    kept =
        unfold FrameBuffer.write in
        omega (
          arith,
          h.kept,
          ap length (concat-append b.fragments (buf ∷ [])),
          length-append (concat b.fragments) (buf ++ []),
          ap length (append-nil buf),
        );
    small = room;
  }

four_bytes :
    (bytes : Bytes) → 4 ≤ length bytes → buf_to_network_long (take 4 bytes) ≡ ok (number bytes)
unfolding buf_to_network_long
four_bytes (a ∷ b ∷ c ∷ d ∷ bytes) h = refl
four_bytes (a ∷ b ∷ c ∷ []) h = absurd (omega arith)
four_bytes (a ∷ b ∷ []) h = absurd (omega arith)
four_bytes (a ∷ []) h = absurd (omega arith)
four_bytes [] h = absurd (omega arith)

-- The four bytes of a length are read whatever they are.
read_len-four :
    (b : FrameBuffer) (bytes : Bytes) (n : ℕ)
    → Holds b bytes n
    → 4 ≤ length bytes
    → (b' : FrameBuffer) × (read_optional read_size b ≡ ok (some (number bytes), b'))
      × Holds b' (drop 4 bytes) n
unfolding read_optional read_size read_uint32
read_len-four b bytes n h long =
    let (b', e, h') = read-Holds b bytes n h 4 long in
    let word : read_uint32 b ≡ ok (number bytes, b') =
      bind-ok (FrameBuffer.read 4) (λ buf. lift (buf_to_network_long buf)) e
      ∙ ap (λ r. lift r b') (four_bytes bytes long) in
    (b', bind-ok read_uint32 (λ x b. ok (some x, b)) word, h')

read_len-feed :
    (len : Option ℕ) (b : FrameBuffer) (bytes : Bytes) (n : ℕ)
    → Holds b bytes n
    → (b' : FrameBuffer) × (read_len len b ≡ ok ((take_len len bytes).0, b'))
      × Holds b' (take_len len bytes).1 n
unfolding read_len
read_len-feed (some l) b bytes n h = (b, refl, h)
read_len-feed none b bytes n h = elim (Bool-cases (leb 4 (length bytes))) [
  | inl long ↦ rw (size-Holds b bytes n h, long) (read_len-four b bytes n h (leb→le _ _ long))
  | inr short ↦ rw (size-Holds b bytes n h, short) (b, refl, h)
]

-- A concrete reader that shows `a`, with `n` bytes in its buffer at most.
pub record Shows (r : FrameReader) (a : Abstract) (n : ℕ) : Type 0 where
  pub valid : IsValid r.fbuf
  pub shows : view r ≡ a
  pub kept : length (concat r.fbuf.fragments) ≤ n

-- Where the buffer holds the bytes, the reader shows them.
Shows-Holds :
    (len : Option ℕ) (b : FrameBuffer) (bytes : Bytes) (n : ℕ) (frames : List Bytes)
    → Holds b bytes n
    → Shows
        (record { len = len; fbuf = b; frames = frames })
        (record { len = len; pending = bytes; frames = frames })
        n
Shows-Holds len b bytes n frames h = record {
  valid = h.valid;
  shows = ap (λ bs. record { len = len; pending = bs; frames = frames }) h.holds;
  kept = h.kept;
}

read_frame-feed :
    (len : Option ℕ) (b : FrameBuffer) (bytes : Bytes) (n : ℕ) (frames : List Bytes)
    → Holds b bytes n
    → (r : FrameReader) × (read_frame len b frames ≡ ok r)
      × Shows r (take_frame (len, bytes) frames) n
unfolding read_frame
read_frame-feed none b bytes n frames h =
    (record { len = none; fbuf = b; frames = frames }, refl, Shows-Holds none b bytes n frames h)
read_frame-feed (some l) b bytes n frames h = elim (Bool-cases (leb l (length bytes))) [
  | inl whole ↦
      let (b', e, h') = read-Holds b bytes n h l (leb→le _ _ whole) in
      rw (size-Holds b bytes n h, whole, e)
        (
          record { len = none; fbuf = b'; frames = frames ++ take l bytes ∷ [] },
          refl,
          Shows-Holds none b' (drop l bytes) n (frames ++ take l bytes ∷ []) h',
        )
  | inr short ↦
      rw (size-Holds b bytes n h, short)
        (
          record { len = some l; fbuf = b; frames = frames },
          refl,
          Shows-Holds (some l) b bytes n frames h,
        )
]

-- A frame reader that shows an abstract reader, with fewer than 2 ^ 31 bytes in its buffer and
-- the chunk together, takes a chunk without failing: its new state shows what the abstract reader
-- makes of the chunk, and `write` returns whether a frame is there.
pub write-feed :
    (r : FrameReader) (a : Abstract) (n : ℕ) (buf : Bytes)
    → Shows r a n
    → n + length buf < 2 ^ 31
    → (r' : FrameReader) × (write r buf ≡ ok (r', has_frame r'))
      × Shows r' (feed a buf) (n + length buf)
unfolding write
write-feed r a n buf s room =
    let h : Holds r.fbuf (contents r.fbuf) n = record {
      valid = s.valid;
      holds = refl;
      kept = s.kept;
      small = omega arith;
    } in
    let (b, e, g) =
      read_len-feed r.len (FrameBuffer.write r.fbuf buf) _ _ (write-Holds r.fbuf _ n h buf room) in
    let (r', e', s') =
      read_frame-feed (take_len r.len (contents r.fbuf ++ buf)).0 b
        (take_len r.len (contents r.fbuf ++ buf)).1 (n + length buf) r.frames g in
    rw e (rw e' (r', refl, subst (λ a. Shows r' (feed a buf) (n + length buf)) s.shows s'))
