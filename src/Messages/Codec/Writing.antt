-- ===== src/Messages/Codec/Writing.antt =====
-- `serialize` writes the wire format of every message.
use cpp_prototype.Common.{refl, subst, List, [], ◌∷◌, ◌++◌, append_assoc, Bytes}
use cpp_prototype.Serialization.FrameBuffer.{empty}
use cpp_prototype.Serialization.FrameBufferIo.{Writer, ◌<<◌, write_char, write_vector}
use cpp_prototype.Serialization.FrameBufferIo.Wire.{Fits, Writes, Wrote, Wrote-then}
use cpp_prototype.Serialization.FrameBufferIo.RoundTrip.{
  write_char-Writes, write_bool-Writes, write_int32-Writes, write_string-Writes,
  write_vector-Writes,
}
use cpp_prototype.Messages.MessageType.{MessageType, to_char, write_type}
use cpp_prototype.Messages.Message.{
  DataPacket, Message, authentication, authenticated, multicast, unicast, forwarded_subscription,
  notification, subscription, forwarded_multicast, forwarded_unicast, message_type,
}
use cpp_prototype.Messages.Codec.{
  write_authentication, write_authenticated, write_multicast, write_unicast,
  write_forwarded_subscription, write_notification, write_subscription, write_forwarded_multicast,
  write_forwarded_unicast, write_packet, write_packets, serialize_body, serialize,
}
use cpp_prototype.Messages.Codec.Wire.{
  wire_chars, wire_packet, wire_packets, wire_body, wire, PacketFits, PacketsFit, MessageFits,
}
use cpp_prototype.Messages.Codec.Reading.{All-chars}

-- Two writers in a row; a longer chain regroups its bytes to the right.
Writes-then :
    {v w : Writer} {xs ys : Bytes} → Writes v xs → Writes w ys → Writes (λ f. v f << w) (xs ++ ys)
Writes-then first second = record { at = λ b valid. Wrote-then (first.at b valid) second }

Writes-then₃ :
    {u v w : Writer} {xs ys zs : Bytes}
    → Writes u xs
    → Writes v ys
    → Writes w zs
    → Writes (λ f. u f << v << w) (xs ++ (ys ++ zs))
Writes-then₃ {u} {v} {w} {xs} {ys} {zs} a b c =
    subst (Writes (λ f. u f << v << w)) (append_assoc xs ys zs) (Writes-then (Writes-then a b) c)

write_chars-Writes : (bs : Bytes) → Fits bs → Writes (write_vector write_char bs) (wire_chars bs)
write_chars-Writes bs h =
    write_vector-Writes _ (λ _. Unit {0}) write_char (λ c _. write_char-Writes c) bs h
      (All-chars bs)

write_packet-Writes : (d : DataPacket) → PacketFits d → Writes (write_packet d) (wire_packet d)
unfolding write_packet
write_packet-Writes d h =
    Writes-then₃ (write_int32-Writes d.entitlement) (write_string-Writes d.content_type h.1)
      (write_chars-Writes d.payload h.2)

write_packets-Writes :
    (ds : List DataPacket) → PacketsFit ds → Writes (write_packets ds) (wire_packets ds)
write_packets-Writes ds h =
    write_vector-Writes wire_packet PacketFits write_packet write_packet-Writes ds h.0 h.1

-- Four and five writers.
module _ {t u v w : Writer} {ws xs ys zs : Bytes} (a : Writes t ws) (b : Writes u xs)
    (c : Writes v ys) (d : Writes w zs) where
  Writes-then₄ : Writes (λ f. t f << u << v << w) (ws ++ (xs ++ (ys ++ zs)))
  Writes-then₄ =
      subst (Writes (λ f. t f << u << v << w)) (append_assoc ws xs (ys ++ zs))
        (Writes-then₃ (Writes-then a b) c d)

  Writes-then₅ :
      {s : Writer} {vs : Bytes}
      → Writes s vs
      → Writes (λ f. s f << t << u << v << w) (vs ++ (ws ++ (xs ++ (ys ++ zs))))
  Writes-then₅ {s} {vs} e =
      subst (Writes (λ f. s f << t << u << v << w)) (simp append_assoc)
        (Writes-then₃ (Writes-then₃ e a b) c d)

serialize_body-Writes : (m : Message) → MessageFits m → Writes (serialize_body m) (wire_body m)
unfolding serialize_body write_authentication write_authenticated write_multicast write_unicast
    write_forwarded_subscription write_notification write_subscription write_forwarded_multicast
    write_forwarded_unicast
serialize_body-Writes (authentication m) h =
    Writes-then (write_string-Writes m.method h.0) (write_string-Writes m.payload h.1)
serialize_body-Writes (authenticated m) h = write_bool-Writes m.is_authenticated
serialize_body-Writes (multicast m) h =
    Writes-then (write_string-Writes m.topic h.0) (write_packets-Writes m.data_packets h.1)
serialize_body-Writes (unicast m) h =
    Writes-then₃ (write_string-Writes m.client_id h.0) (write_string-Writes m.topic h.1)
      (write_packets-Writes m.data_packets h.2)
serialize_body-Writes (forwarded_subscription m) h =
    Writes-then₅ (write_string-Writes m.host h.1) (write_string-Writes m.client_id h.2)
      (write_string-Writes m.topic h.3) (write_bool-Writes m.is_add)
      (write_string-Writes m.user h.0)
serialize_body-Writes (notification m) h =
    Writes-then (write_string-Writes m.topic_pattern h) (write_bool-Writes m.is_add)
serialize_body-Writes (subscription m) h =
    Writes-then (write_string-Writes m.topic h) (write_bool-Writes m.is_add)
serialize_body-Writes (forwarded_multicast m) h =
    Writes-then₄ (write_string-Writes m.user h.0) (write_string-Writes m.host h.1)
      (write_string-Writes m.topic h.2) (write_packets-Writes m.data_packets h.3)
serialize_body-Writes (forwarded_unicast m) h =
    Writes-then₅ (write_string-Writes m.host h.1) (write_string-Writes m.client_id h.2)
      (write_string-Writes m.topic h.3) (write_packets-Writes m.data_packets h.4)
      (write_string-Writes m.user h.0)

write_type-Writes : (t : MessageType) → Writes (write_type t) (to_char t ∷ [])
unfolding write_type
write_type-Writes t = write_char-Writes (to_char t)

-- For a message whose strings and vectors have fewer than 2 ^ 32 elements each, `serialize`
-- throws nothing and returns a valid, unread buffer whose contents are the wire format of the
-- message.
pub serialize-Wrote : (m : Message) → MessageFits m → Wrote (serialize m) empty (wire m)
unfolding serialize
serialize-Wrote m h =
    Wrote-then ((write_type-Writes (message_type m)).at empty refl) (serialize_body-Writes m h)
