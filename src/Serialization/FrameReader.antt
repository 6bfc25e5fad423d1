-- ===== src/Serialization/FrameReader.antt =====
-- The class FrameReader of src/serialization/frame_reader.hpp.
pub mod Abstract
pub mod Refinement
pub mod Chunks
pub mod Coalesced
use cpp_prototype.Common.{
  ℕ, Bool, true, false, not, List, [], ◌∷◌, ◌++◌, Bytes, Option, none, some, leb, if◌then◌else◌,
  Outcome, ok, err, undefined, ◌>>=◌,
}
use cpp_prototype.Serialization.FrameBuffer
use cpp_prototype.Serialization.FrameBuffer.{FrameBuffer}
use cpp_prototype.Serialization.FrameBufferIo.{read_optional, read_size}

pub record FrameReader : Type 0 where
  pub len : Option ℕ
  pub fbuf : FrameBuffer
  pub frames : List Bytes

-- `FrameReader {}`
abbrev pub empty : FrameReader
empty = record { len = none; fbuf = FrameBuffer.empty; frames = [] }

-- The first `if` of `write`: the length of the next frame, once four bytes are there.
unfoldable pub read_len : Option ℕ → FrameBuffer → Outcome (Option ℕ × FrameBuffer)
read_len (some l) b = ok (some l, b)
read_len none b = if leb 4 (FrameBuffer.size b) then read_optional read_size b else ok (none, b)

-- The second: the next frame, once all of it is there.
unfoldable pub read_frame : Option ℕ → FrameBuffer → List Bytes → Outcome FrameReader
read_frame none b frames = ok (record { len = none; fbuf = b; frames = frames })
read_frame (some l) b frames =
    if leb l (FrameBuffer.size b)
    then (do
      (frame, b') ← FrameBuffer.read l b
      ok (record { len = none; fbuf = b'; frames = frames ++ frame ∷ [] }))
    else ok (record { len = some l; fbuf = b; frames = frames })

unfoldable pub has_frame : FrameReader → Bool
has_frame r = elim r.frames [ [] ↦ false | _ ∷ _ ↦ true ]

unfoldable pub write : FrameReader → Bytes → Outcome (FrameReader × Bool)
unfolding read_len read_frame has_frame
write r buf = do
  (len, b) ← read_len r.len (FrameBuffer.write r.fbuf buf)
  r' ← read_frame len b r.frames
  ok (r', has_frame r')

-- `read` moves the oldest frame into a new buffer.
unfoldable pub pop_frame : FrameReader → List Bytes → Outcome (FrameBuffer × FrameReader)
pop_frame r [] = err undefined
pop_frame r (frame ∷ rest) =
    ok (FrameBuffer.write FrameBuffer.empty frame, record r { frames = rest })

unfoldable pub read : FrameReader → Outcome (FrameBuffer × FrameReader)
unfolding pop_frame
read r = pop_frame r r.frames
