-- ===== src/Serialization/FrameReader/Coalesced.antt =====
-- Two frames in one chunk: `write` takes one frame out at most.
use cpp_prototype.Common.{
  ◌≡◌, ap, ◌∙◌, ℕ, ◌+◌, ◌^◌, ◌<◌, true, [], ◌∷◌, ◌++◌, Bytes, length, none, ok, Bool,
}
use cpp_prototype.Serialization.FrameReader.{FrameReader, has_frame, write}
use cpp_prototype.Serialization.FrameReader.Abstract.{Abstract}
use cpp_prototype.Serialization.FrameReader.Refinement.{view, Shows, write-feed}
use cpp_prototype.Serialization.FrameReader.Chunks.{frame, between, feed-one_frame}

-- A reader between two frames, with none to give out, that gets a whole frame with more bytes
-- behind it in one chunk, fewer than 2 ^ 31 bytes in all, has one frame to give out then; the
-- bytes behind it wait for the next chunk, even where they are a whole frame.
pub write-one_frame :
    (r : FrameReader) (n : ℕ) (payload rest : Bytes)
    → Shows r (between []) n
    → length payload < 2 ^ 32
    → n + length (frame payload ++ rest) < 2 ^ 31
    → (r' : FrameReader) × (write r (frame payload ++ rest) ≡ ok (r', true))
      × (view r' ≡ record { len = none; pending = rest; frames = payload ∷ [] })
unfolding has_frame
write-one_frame r n payload rest shows fits room =
    let (r', e, shows') = write-feed r (between []) n (frame payload ++ rest) shows room in
    let now : view r' ≡ record { len = none; pending = rest; frames = payload ∷ [] } =
      shows'.shows ∙ feed-one_frame payload rest [] fits in
    (
      r',
      e ∙ ap (λ (a : Abstract). ok (r', elim a.frames [ [] ↦ Bool.false | _ ∷ _ ↦ Bool.true ])) now,
      now,
    )
