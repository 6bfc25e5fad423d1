-- ===== src/Serialization/FrameReader/Abstract.antt =====
-- What a frame reader is for: it cuts a stream of bytes into frames. The abstract reader keeps the
-- length of the frame that it is in, the bytes not yet given out, and the frames found.
use cpp_prototype.Common.{
  ℕ, ◌+◌, ◌*◌, ◌^◌, List, [], ◌∷◌, ◌++◌, Bytes, length, take, drop, Option, none, some, leb,
  if◌then◌else◌,
}

pub record Abstract : Type 0 where
  pub len : Option ℕ
  pub pending : Bytes
  pub frames : List Bytes

-- The number that four bytes stand for, the highest first.
abbrev pub number : Bytes → ℕ
number (a ∷ b ∷ c ∷ d ∷ _) = a * 2 ^ 24 + b * 2 ^ 16 + c * 2 ^ 8 + d
number _ = 0

abbrev pub take_len : Option ℕ → Bytes → Option ℕ × Bytes
take_len (some l) bytes = (some l, bytes)
take_len none bytes =
    if leb 4 (length bytes) then (some (number bytes), drop 4 bytes) else (none, bytes)

abbrev pub take_frame : Option ℕ × Bytes → List Bytes → Abstract
take_frame (none, bytes) frames = record { len = none; pending = bytes; frames = frames }
take_frame (some l, bytes) frames =
    if leb l (length bytes)
    then record { len = none; pending = drop l bytes; frames = frames ++ take l bytes ∷ [] }
    else record { len = some l; pending = bytes; frames = frames }

-- One chunk: one length at most, and one frame at most.
abbrev pub feed : Abstract → Bytes → Abstract
feed a chunk = take_frame (take_len a.len (a.pending ++ chunk)) a.frames
