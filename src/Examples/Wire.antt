-- ===== src/Examples/Wire.antt =====
-- The serialization, the messages and the interactors at concrete inputs.
use cpp_prototype.Common.{
  ◌↔◌, ◌≡◌, refl, ◌^◌, ◌<◌, true, List, [], ◌∷◌, ◌++◌, Bytes, length, take, drop, concat, none,
  Outcome, ok, err, undefined, arith,
}
use cpp_prototype.Common.Int.{negsuc}
use cpp_prototype.Serialization.FrameBuffer
use cpp_prototype.Serialization.FrameBuffer.{FrameBuffer, network_long_to_buf, to_vector}
use cpp_prototype.Serialization.FrameBuffer.Reading.{read-undefined}
use cpp_prototype.Serialization.FrameBufferIo.Wire.{Reads}
use cpp_prototype.Serialization.FrameReader
use cpp_prototype.Serialization.FrameReader.{FrameReader, has_frame}
use cpp_prototype.Serialization.FrameReader.Abstract.{feed}
use cpp_prototype.Serialization.FrameReader.Refinement.{view, Shows, write-feed}
use cpp_prototype.Serialization.FrameReader.Chunks.{frame, between}
use cpp_prototype.Serialization.FrameReader.Coalesced.{write-one_frame}
use cpp_prototype.Messages.MessageType.{to_char}
use cpp_prototype.Messages.Message.{Message, multicast}
use cpp_prototype.Messages.Codec.{deserialize}
use cpp_prototype.Messages.Codec.Wire.{wire, MessageFits}
use cpp_prototype.Messages.Codec.Reading.{deserialize-Reads}
use cpp_prototype.Messages.Equality.{equals}
use cpp_prototype.Messages.Equality.Agreement.{equals_iff}
use cpp_prototype.Server.Interactor.{receive_all}
use cpp_prototype.Server.Interactor.Transport.{send-frame, send-receive_all}

-- Two fragments, of which the first byte has been read.
abbrev part_read : FrameBuffer
part_read = record { fragments = (b'a' ∷ b'b' ∷ []) ∷ (b'c' ∷ []) ∷ []; offset = 1 }

-- A message on the topic "t" with one packet.
abbrev sample : Message
sample = multicast (record {
  topic = b't' ∷ [];
  data_packets =
      record { entitlement = negsuc 4; content_type = b'x' ∷ []; payload = b'h' ∷ b'i' ∷ [] } ∷ [];
})

-- Its bytes, cut in three.
abbrev sample_chunks : List Bytes
sample_chunks =
    take 3 (frame (wire sample))
    ∷ take 10 (drop 3 (frame (wire sample)))
    ∷ drop 13 (frame (wire sample))
    ∷ []

pub empty-Shows : Shows FrameReader.empty (between []) 0
empty-Shows = record { valid = refl; shows = refl; kept = omega arith }

-- The messages processed, in order.
abbrev pub collect_messages : Message → List Message → Outcome (List Message)
collect_messages m ms = ok (ms ++ m ∷ [])

read-undefined_example : FrameBuffer.read 3 part_read ≡ err undefined
read-undefined_example = read-undefined 3 part_read (omega arith) (omega arith)

write-feed_example :
    (r' : FrameReader) × (FrameReader.write FrameReader.empty (0 ∷ 0 ∷ []) ≡ ok (r', has_frame r'))
    × Shows r' (feed (between []) (0 ∷ 0 ∷ [])) 2
write-feed_example =
    write-feed FrameReader.empty (between []) 0 (0 ∷ 0 ∷ []) empty-Shows (omega arith)

write-one_frame_example :
    (r' : FrameReader) × (FrameReader.write FrameReader.empty (frame (7 ∷ []) ++ frame (8 ∷ []))
      ≡ ok (r', true))
    × (view r' ≡ record { len = none; pending = frame (8 ∷ []); frames = (7 ∷ []) ∷ [] })
unfolding network_long_to_buf
write-one_frame_example =
    write-one_frame FrameReader.empty 0 (7 ∷ []) (frame (8 ∷ [])) empty-Shows (omega arith)
      (omega arith)

sample-MessageFits : MessageFits sample
sample-MessageFits = (omega arith, (omega arith, ((omega arith, omega arith, omega arith), tt)))

deserialize-Reads_example : Reads deserialize sample (wire sample)
deserialize-Reads_example = deserialize-Reads sample sample-MessageFits

wire-sample-small : length (wire sample) < 2 ^ 31
unfolding to_char network_long_to_buf
wire-sample-small = omega arith

send-receive_all_example :
    (r' : FrameReader) × (receive_all collect_messages sample_chunks FrameReader.empty []
      ≡ ok (r', sample ∷ []))
    × Shows r' (between []) (length (concat sample_chunks))
unfolding to_char network_long_to_buf
send-receive_all_example =
    send-receive_all collect_messages sample sample_chunks FrameReader.empty 0 [] (sample ∷ [])
      sample-MessageFits wire-sample-small (send-frame sample sample-MessageFits wire-sample-small)
      empty-Shows (omega arith) refl

equals_iff_example : (equals sample sample ≡ ok true) ↔ (sample ≡ sample)
equals_iff_example = equals_iff sample sample
