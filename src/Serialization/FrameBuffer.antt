-- ===== src/Serialization/FrameBuffer.antt =====
-- src/serialization/frame_buffer.hpp and network_bytes.hpp.
pub mod Contents
pub mod Reading
pub mod Writing
use cpp_prototype.Common.{
  ℕ, zero, suc, ◌+◌, ◌-◌, ◌*◌, ◌/◌, ◌%◌, ◌^◌, min, List, [], ◌∷◌, ◌++◌, Bytes, length, take, drop,
  replicate, concat, ltb, ◌==◌, if◌then◌else◌, Outcome, ok, err, undefined, out_of_fuel,
  length_error,
}
use mathlib.Core.List.{foldl}

-- A deque of fragments, and the number of bytes of the first that have been read.
pub record FrameBuffer : Type 0 where
  pub fragments : List Bytes
  pub offset : ℕ

-- `FrameBuffer {}`
abbrev pub empty : FrameBuffer
empty = record { fragments = []; offset = 0 }

-- `FrameBuffer::from`
unfoldable pub from : Bytes → FrameBuffer
from buf = record { fragments = buf ∷ []; offset = 0 }

-- A size_t stored in an int and read back as a size_t: the low 32 bits, with their sign extended.
unfoldable pub through_int : ℕ → ℕ
through_int n = let w = n % 2 ^ 32 in if ltb w (2 ^ 31) then w else w + (2 ^ 64 - 2 ^ 32)

-- The sum runs in an int, since the initial value of `std::accumulate` is the literal 0.
unfoldable pub size : FrameBuffer → ℕ
unfolding through_int
size b =
    (foldl (λ lhs rhs. through_int ((lhs + length rhs) % 2 ^ 64)) 0 b.fragments + 2 ^ 64 - b.offset)
    % 2 ^ 64

unfoldable pub write : FrameBuffer → Bytes → FrameBuffer
write b buf = record b { fragments = b.fragments ++ buf ∷ [] }

-- The loop of `read`, with the bytes still wanted and those copied so far. An offset past the end of
-- the first fragment would wrap `available` round and copy from out of range.
read_loop : ℕ → List Bytes → ℕ → ℕ → Bytes → Outcome (Bytes × FrameBuffer)
read_loop zero fragments offset left buf = err out_of_fuel
read_loop (suc fuel) [] offset left buf =
    if left == 0 then ok (buf, record { fragments = []; offset = offset }) else err undefined
read_loop (suc fuel) (front ∷ rest) offset left buf =
    let popped = read_loop fuel rest 0 left buf in
    let count = min left (length front - offset) in
    let copied =
      read_loop fuel (front ∷ rest) (offset + count) (left - count)
        (buf ++ take count (drop offset front)) in
    if left == 0
    then ok (buf, record { fragments = front ∷ rest; offset = offset })
    else if ltb (length front) offset
    then err undefined
    else if length front - offset == 0
    then popped
    else copied

-- Two rounds for each fragment at most, and one to stop.
unfoldable pub read : ℕ → FrameBuffer → Outcome (Bytes × FrameBuffer)
unfolding read_loop
read len b = read_loop (2 * length b.fragments + 1) b.fragments b.offset len []

-- network_long_to_buf: the bytes of `htonl`, the highest first.
unfoldable pub network_long_to_buf : ℕ → Bytes
network_long_to_buf num =
    (num / 2 ^ 24 % 256) ∷ (num / 2 ^ 16 % 256) ∷ (num / 2 ^ 8 % 256) ∷ (num % 256) ∷ []

-- buf_to_network_long: `ntohl` of the first four bytes.
unfoldable pub buf_to_network_long : Bytes → Outcome ℕ
buf_to_network_long (a ∷ b ∷ c ∷ d ∷ _) = ok (a * 2 ^ 24 + b * 2 ^ 16 + c * 2 ^ 8 + d)
buf_to_network_long _ = err undefined

-- The conversion to std::vector<char>: room for `size ()` bytes after a length of four, the length,
-- and every fragment whole. A fragment that has been read in part would overrun the room.
unfoldable pub to_vector : FrameBuffer → Outcome Bytes
to_vector b =
    let room = (4 + size b) % 2 ^ 64 in
    let used = 4 + length (concat b.fragments) in
    if ltb (2 ^ 63 - 1) room
    then err length_error
    else if ltb room used
    then err undefined
    else ok
        (network_long_to_buf (size b % 2 ^ 32) ++ concat b.fragments ++ replicate (room - used) 0)
