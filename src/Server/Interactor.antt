-- ===== src/Server/Interactor.antt =====
-- `send` and `receive` of src/server/interactor.cpp. What a message does to the server is an argument,
-- `process`, which stands for `process_message`.
pub mod Transport
use cpp_prototype.Common.{
  ℕ, zero, suc, ◌+◌, List, [], ◌∷◌, Bytes, length, Outcome, ok, err, out_of_fuel, ◌>>=◌,
  if◌then◌else◌,
}
use cpp_prototype.Serialization.FrameBuffer
use cpp_prototype.Serialization.FrameReader.{FrameReader, has_frame, read, write}
use cpp_prototype.Messages.Message.{Message}
use cpp_prototype.Messages.Codec.{serialize, deserialize}

-- `send`: the bytes that it hands to the poller.
unfoldable pub send : Message → Outcome Bytes
send message = do frame ← serialize message; FrameBuffer.to_vector frame

module _ {ℓ} {S : Type ℓ} (process : Message → S → Outcome S) where
  -- The loop of `receive`. An exception leaves it, and with it the reader.
  unfoldable pub drain : ℕ → FrameReader → S → Outcome (FrameReader × S)
  drain zero reader s = err out_of_fuel
  drain (suc fuel) reader s =
      let frame_read = (do
        (frame, reader') ← read reader
        (message, frame') ← deserialize frame
        s' ← process message s
        drain fuel reader' s') in
      if has_frame reader then frame_read else ok (reader, s)

  -- One round for each frame, and one to stop.
  unfoldable pub receive : Bytes → FrameReader → S → Outcome (FrameReader × S)
  receive buf reader s = do
    (reader', has) ← write reader buf
    drain (suc (length reader'.frames)) reader' s

  -- The chunks of a connection, one after the other, as `Distributor::on_read` hands them on.
  unfoldable pub receive_all : List Bytes → FrameReader → S → Outcome (FrameReader × S)
  receive_all [] reader s = ok (reader, s)
  receive_all (buf ∷ bufs) reader s = do
    (reader', s') ← receive buf reader s
    receive_all bufs reader' s'
