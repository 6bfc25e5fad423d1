-- ===== src/Messages/Codec/Reading.antt =====
-- `deserialize` reads the wire format of every message.
use cpp_prototype.Common.{refl, List, [], ◌∷◌, ◌++◌, Bytes, All}
use cpp_prototype.Serialization.FrameBufferIo.{
  Reader, ◌>>=◌, read_char, read_string, read_vector, read_bool, read_int32,
}
use cpp_prototype.Serialization.FrameBufferIo.Wire.{
  wire_int32, wire_string, Fits, Reads, Reads-bind, Reads-map,
}
use cpp_prototype.Serialization.FrameBufferIo.RoundTrip.{
  read_char-Reads, read_bool-Reads, read_int32-Reads, read_string-Reads, read_vector-Reads,
}
use cpp_prototype.Messages.MessageType.{
  MessageType, to_char, from_char, read_type, IsEnumerator, from_char-to_char,
}
use cpp_prototype.Messages.Message.{
  DataPacket, Message, authentication, authenticated, multicast, unicast, forwarded_subscription,
  notification, subscription, forwarded_multicast, forwarded_unicast, message_type,
}
use cpp_prototype.Messages.Codec.{read_packet, read_packets, deserialize_body, deserialize}
use cpp_prototype.Messages.Codec.Wire.{
  wire_chars, wire_packet, wire_packets, wire_body, wire, PacketFits, PacketsFit, MessageFits,
}

pub All-chars : (bs : Bytes) → All (λ _. Unit {0}) bs
All-chars [] = tt
All-chars (c ∷ bs) = (tt, All-chars bs)

read_chars-Reads : (bs : Bytes) → Fits bs → Reads (read_vector read_char) bs (wire_chars bs)
read_chars-Reads bs h =
    read_vector-Reads _ (λ _. Unit {0}) read_char (λ c _. read_char-Reads c) bs h (All-chars bs)

read_packet-Reads : (d : DataPacket) → PacketFits d → Reads read_packet d (wire_packet d)
unfolding read_packet
read_packet-Reads d h =
    Reads-bind read_int32 (wire_int32 d.entitlement) (read_int32-Reads d.entitlement h.0) _ _ (
      Reads-bind read_string (wire_string d.content_type) (read_string-Reads d.content_type h.1) _ _
        (Reads-map _ (wire_chars d.payload) (read_chars-Reads d.payload h.2) _ refl))

read_packets-Reads :
    (ds : List DataPacket) → PacketsFit ds → Reads read_packets ds (wire_packets ds)
read_packets-Reads ds h =
    read_vector-Reads wire_packet PacketFits read_packet read_packet-Reads ds h.0 h.1

-- A string, and then the rest of the body.
after_string {ℓ} :
    {B : Type ℓ} {w : B} (s : Bytes)
    → Fits s
    → (f : Bytes → Reader B) (ys : Bytes) → Reads (f s) w ys
    → Reads (read_string >>= f) w (wire_string s ++ ys)
after_string s h = Reads-bind read_string (wire_string s) (read_string-Reads s h)

deserialize_body-Reads :
    (m : Message) → MessageFits m → Reads (deserialize_body (message_type m)) m (wire_body m)
unfolding deserialize_body message_type
deserialize_body-Reads (authentication m) h =
    after_string m.method h.0 _ _ (Reads-map read_string _ (read_string-Reads m.payload h.1) _ refl)
deserialize_body-Reads (authenticated m) h =
    Reads-map read_bool _ (read_bool-Reads m.is_authenticated) _ refl
deserialize_body-Reads (multicast m) h =
    after_string m.topic h.0 _ _
      (Reads-map read_packets _ (read_packets-Reads m.data_packets h.1) _ refl)
deserialize_body-Reads (unicast m) h = after_string m.client_id h.0 _ _ (
    after_string m.topic h.1 _ _
      (Reads-map read_packets _ (read_packets-Reads m.data_packets h.2) _ refl))
deserialize_body-Reads (forwarded_subscription m) h = after_string m.user h.0 _ _ (
    after_string m.host h.1 _ _ (
      after_string m.client_id h.2 _ _
        (after_string m.topic h.3 _ _ (Reads-map read_bool _ (read_bool-Reads m.is_add) _ refl))))
deserialize_body-Reads (notification m) h =
    after_string m.topic_pattern h _ _ (Reads-map read_bool _ (read_bool-Reads m.is_add) _ refl)
deserialize_body-Reads (subscription m) h =
    after_string m.topic h _ _ (Reads-map read_bool _ (read_bool-Reads m.is_add) _ refl)
deserialize_body-Reads (forwarded_multicast m) h = after_string m.user h.0 _ _ (
    after_string m.host h.1 _ _ (
      after_string m.topic h.2 _ _
        (Reads-map read_packets _ (read_packets-Reads m.data_packets h.3) _ refl)))
deserialize_body-Reads (forwarded_unicast m) h = after_string m.user h.0 _ _ (
    after_string m.host h.1 _ _ (
      after_string m.client_id h.2 _ _ (
        after_string m.topic h.3 _ _
          (Reads-map read_packets _ (read_packets-Reads m.data_packets h.4) _ refl))))

message_type-IsEnumerator : (m : Message) → IsEnumerator (message_type m)
unfolding message_type
message_type-IsEnumerator (authentication m) = tt
message_type-IsEnumerator _ = tt

read_type-Reads : (t : MessageType) → IsEnumerator t → Reads read_type t (to_char t ∷ [])
unfolding read_type
read_type-Reads t h =
    Reads-map read_char (to_char t ∷ []) (read_char-Reads (to_char t)) from_char
      (from_char-to_char t h)

-- For a message whose strings and vectors have fewer than 2 ^ 32 elements each, and whose
-- entitlements are 32-bit integers: from a valid buffer that starts with the wire format of the
-- message, `deserialize` reads that message and leaves exactly the bytes that follow it, however
-- the bytes are spread over the fragments.
pub deserialize-Reads : (m : Message) → MessageFits m → Reads deserialize m (wire m)
unfolding deserialize
deserialize-Reads m h =
    Reads-bind read_type (to_char (message_type m) ∷ [])
      (read_type-Reads (message_type m) (message_type-IsEnumerator m)) deserialize_body
      (wire_body m) (deserialize_body-Reads m h)
