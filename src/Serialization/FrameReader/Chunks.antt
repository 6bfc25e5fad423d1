-- ===== src/Serialization/FrameReader/Chunks.antt =====
-- A frame is cut out of the stream however the network splits it into chunks.
use mathlib.Core.Path.{ap₂}
use cpp_prototype.Common.{
  ℕ, ◌+◌, ◌^◌, ◌≤◌, ◌<◌, ◌≡◌, refl, sym, ap, ◌∙◌, inl, inr, true, List, [], ◌∷◌, ◌++◌, append_assoc,
  append-nil, Bytes, length, concat, drop, length-append, length-drop, drop-append, take-append,
  drop-append_le, none, some, leb, leb→le, le→leb, Bool-cases, arith, if◌then◌else◌, dec_lt,
}
use cpp_prototype.Serialization.FrameBuffer.{network_long_to_buf}
use cpp_prototype.Serialization.FrameReader.Abstract.{Abstract, number, take_frame, feed}

-- A payload behind its length.
abbrev pub frame : Bytes → Bytes
frame payload = network_long_to_buf (length payload) ++ payload

abbrev pub feed_all : Abstract → List Bytes → Abstract
feed_all a [] = a
feed_all a (c ∷ cs) = feed_all (feed a c) cs

-- Between frames, with `frames` found.
abbrev pub between : List Bytes → Abstract
between frames = record { len = none; pending = []; frames = frames }

number-frame :
    (payload rest : Bytes)
    → length payload < 2 ^ 32
    → number (frame payload ++ rest) ≡ length payload
unfolding network_long_to_buf
number-frame payload rest h = omega arith

number-append : (xs rest : Bytes) → 4 ≤ length xs → number xs ≡ number (xs ++ rest)
number-append (a ∷ b ∷ c ∷ d ∷ xs) rest h = refl
number-append (a ∷ b ∷ c ∷ []) rest h = absurd (omega arith)
number-append (a ∷ b ∷ []) rest h = absurd (omega arith)
number-append (a ∷ []) rest h = absurd (omega arith)
number-append [] rest h = absurd (omega arith)

length-frame : (payload : Bytes) → length (frame payload) ≡ 4 + length payload
unfolding network_long_to_buf
length-frame payload = omega arith

drop-frame : (payload : Bytes) → drop 4 (frame payload) ≡ payload
unfolding network_long_to_buf
drop-frame payload = refl

empty_rest : (xs ys zs : Bytes) → xs ++ ys ≡ zs → length zs ≤ length xs → ys ≡ []
empty_rest xs [] zs e h = refl
empty_rest xs (y ∷ ys) zs e h = absurd (omega (arith, ap length e, length-append xs (y ∷ ys)))

-- The state when `seen`, a part of a frame of `n` bytes of payload, has come in.
abbrev inside : ℕ → List Bytes → Bytes → Abstract
inside n frames seen =
    if leb 4 (length seen)
    then record { len = some n; pending = drop 4 seen; frames = frames }
    else record { len = none; pending = seen; frames = frames }

-- Once the length is known and the payload is there, it is taken.
take_frame-whole :
    (payload rest : Bytes) (frames : List Bytes)
    → take_frame (some (length payload), payload ++ rest) frames
      ≡ record { len = none; pending = rest; frames = frames ++ payload ∷ [] }
take_frame-whole payload rest frames =
    let there : leb (length payload) (length (payload ++ rest)) ≡ true =
      ground (arith, length-append payload rest) in
    rw there (
      ap₂ (λ bs v. record { len = none; pending = bs; frames = frames ++ v ∷ [] })
        (drop-append payload rest) (take-append payload rest))

module _ (payload : Bytes) (frames : List Bytes) (fits : length payload < 2 ^ 32) where
  -- A chunk inside a frame: the length is taken as soon as it is there.
  feed-inside :
      (seen chunk rest : Bytes)
      → seen ++ chunk ++ rest ≡ frame payload
      → feed (inside (length payload) frames seen) chunk ≡ (
          if leb 4 (length (seen ++ chunk))
          then take_frame (some (length payload), drop 4 (seen ++ chunk)) frames
          else record { len = none; pending = seen ++ chunk; frames = frames })
  feed-inside seen chunk rest e = elim (Bool-cases (leb 4 (length seen))) [
    | inl known ↦
        let longer : leb 4 (length (seen ++ chunk)) ≡ true =
          ground (arith, length-append seen chunk) in
        rw (known, longer)
          (ap (λ bs. take_frame (some (length payload), bs) frames)
            (sym (drop-append_le 4 seen chunk (leb→le _ _ known))))
    | inr unknown ↦ elim (Bool-cases (leb 4 (length (seen ++ chunk)))) [
      | inl long ↦
          rw (unknown, long)
            (ap (λ n. take_frame (some n, drop 4 (seen ++ chunk)) frames)
              (number-append (seen ++ chunk) rest (leb→le _ _ long)
                ∙ ap number (e ∙ sym (append-nil (frame payload)))
                ∙ number-frame payload [] fits))
      | inr short ↦ rw (unknown, short) refl
    ]
  ]

  -- Short of the whole frame, the reader stays inside it.
  feed-part :
      (seen chunk rest : Bytes)
      → seen ++ chunk ++ rest ≡ frame payload
      → length (seen ++ chunk) < 4 + length payload
      → feed (inside (length payload) frames seen) chunk
        ≡ inside (length payload) frames (seen ++ chunk)
  feed-part seen chunk rest e h =
      feed-inside seen chunk rest e ∙ ground (arith, length-drop 4 (seen ++ chunk))

  -- With the last byte of the frame, the payload comes out.
  feed-last :
      (seen chunk : Bytes)
      → seen ++ chunk ≡ frame payload
      → feed (inside (length payload) frames seen) chunk ≡ between (frames ++ payload ∷ [])
  feed-last seen chunk e =
      feed-inside seen chunk [] (append-nil _ ∙ e)
      ∙ rw
          (e, length-frame payload, drop-frame payload, le→leb 4 (4 + length payload) (omega arith))
          (ap (λ bs. take_frame (some (length payload), bs) frames) (sym (append-nil payload))
            ∙ take_frame-whole payload [] frames)

feed_nothing :
    (frames : List Bytes) (cs : List Bytes)
    → concat cs ≡ []
    → feed_all (between frames) cs ≡ between frames
feed_nothing frames [] e = refl
feed_nothing frames ([] ∷ cs) e = feed_nothing frames cs e
feed_nothing frames ((c ∷ bs) ∷ cs) e = cc

feed_all-inside :
    (payload : Bytes) (frames : List Bytes) (seen : Bytes) (cs : List Bytes)
    → length payload < 2 ^ 32
    → length seen < 4 + length payload
    → seen ++ concat cs ≡ frame payload
    → feed_all (inside (length payload) frames seen) cs ≡ between (frames ++ payload ∷ [])
feed_all-inside payload frames seen [] fits h e =
    absurd (omega (arith, ap length e, length-append seen [], length-frame payload))
feed_all-inside payload frames seen (c ∷ cs) fits h e =
    let e' : seen ++ c ++ concat cs ≡ frame payload = append_assoc seen c (concat cs) ∙ e in
    elim (dec_lt (length (seen ++ c)) (4 + length payload)) [
      | yes part ↦
          rw (feed-part payload frames fits seen c (concat cs) e' part)
            (feed_all-inside payload frames (seen ++ c) cs fits part e')
      | no whole ↦
          let done : concat cs ≡ [] =
            empty_rest (seen ++ c) (concat cs) (frame payload) e'
              (omega (arith, length-frame payload)) in
          rw
            (feed-last payload frames fits seen c
              (sym (append-nil _) ∙ ap (◌++◌ (seen ++ c)) (sym done) ∙ e'))
            (feed_nothing (frames ++ payload ∷ []) cs done)
    ]

-- From between two frames, any chunks that together make one frame leave the reader between two
-- frames again, with the payload, whole, as one more frame.
pub feed_all-frame :
    (payload : Bytes) (frames cs : List Bytes)
    → length payload < 2 ^ 32
    → concat cs ≡ frame payload
    → feed_all (between frames) cs ≡ between (frames ++ payload ∷ [])
feed_all-frame payload frames cs fits e = feed_all-inside payload frames [] cs fits (omega arith) e

-- A chunk that starts with a whole frame and goes on gives up that frame alone: what follows it waits
-- in the reader for the next chunk, also where it is a frame itself.
pub feed-one_frame :
    (payload rest : Bytes) (frames : List Bytes)
    → length payload < 2 ^ 32
    → feed (between frames) (frame payload ++ rest)
      ≡ record { len = none; pending = rest; frames = frames ++ payload ∷ [] }
unfolding network_long_to_buf
feed-one_frame payload rest frames fits =
    let four : leb 4 (length (frame payload ++ rest)) ≡ true = ground arith in
    rw four (
      ap (λ n. take_frame (some n, payload ++ rest) frames) (number-frame payload rest fits)
      ∙ take_frame-whole payload rest frames)
