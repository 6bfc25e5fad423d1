-- ===== src/Messages/Codec/Wire.antt =====
-- The wire format of the messages as a specification: the fields in order, each in its own format.
use cpp_prototype.Common.{List, [], ◌∷◌, ◌++◌, Bytes, All}
use cpp_prototype.Common.Int.{IsInt32}
use cpp_prototype.Serialization.FrameBufferIo.Wire.{
  wire_bool, wire_int32, wire_string, wire_vector, Fits,
}
use cpp_prototype.Messages.MessageType.{to_char}
use cpp_prototype.Messages.Message.{
  DataPacket, Message, authentication, authenticated, multicast, unicast, forwarded_subscription,
  notification, subscription, forwarded_multicast, forwarded_unicast, message_type,
}

abbrev pub wire_chars : Bytes → Bytes
wire_chars = wire_vector (λ c. c ∷ [])

abbrev pub wire_packet : DataPacket → Bytes
wire_packet d = wire_int32 d.entitlement ++ (wire_string d.content_type ++ wire_chars d.payload)

abbrev pub wire_packets : List DataPacket → Bytes
wire_packets = wire_vector wire_packet

abbrev pub wire_body : Message → Bytes
wire_body (authentication m) = wire_string m.method ++ wire_string m.payload
wire_body (authenticated m) = wire_bool m.is_authenticated
wire_body (multicast m) = wire_string m.topic ++ wire_packets m.data_packets
wire_body (unicast m) =
    wire_string m.client_id ++ (wire_string m.topic ++ wire_packets m.data_packets)
wire_body (forwarded_subscription m) =
    wire_string m.user
    ++ (wire_string m.host
        ++ (wire_string m.client_id ++ (wire_string m.topic ++ wire_bool m.is_add)))
wire_body (notification m) = wire_string m.topic_pattern ++ wire_bool m.is_add
wire_body (subscription m) = wire_string m.topic ++ wire_bool m.is_add
wire_body (forwarded_multicast m) =
    wire_string m.user
    ++ (wire_string m.host ++ (wire_string m.topic ++ wire_packets m.data_packets))
wire_body (forwarded_unicast m) =
    wire_string m.user
    ++ (wire_string m.host
        ++ (wire_string m.client_id ++ (wire_string m.topic ++ wire_packets m.data_packets)))

-- The char of the message's type, and its body.
abbrev pub wire : Message → Bytes
wire m = to_char (message_type m) ∷ wire_body m

-- Every string and vector has fewer than 2 ^ 32 elements, and the entitlement is an int32_t.
abbrev pub PacketFits : DataPacket → Type 0
PacketFits d = IsInt32 d.entitlement × Fits d.content_type × Fits d.payload

abbrev pub PacketsFit : List DataPacket → Type 0
PacketsFit ds = Fits ds × All PacketFits ds

abbrev pub MessageFits : Message → Type 0
MessageFits (authentication m) = Fits m.method × Fits m.payload
MessageFits (authenticated m) = Unit {0}
MessageFits (multicast m) = Fits m.topic × PacketsFit m.data_packets
MessageFits (unicast m) = Fits m.client_id × Fits m.topic × PacketsFit m.data_packets
MessageFits (forwarded_subscription m) = Fits m.user × Fits m.host × Fits m.client_id × Fits m.topic
MessageFits (notification m) = Fits m.topic_pattern
MessageFits (subscription m) = Fits m.topic
MessageFits (forwarded_multicast m) =
    Fits m.user × Fits m.host × Fits m.topic × PacketsFit m.data_packets
MessageFits (forwarded_unicast m) =
    Fits m.user × Fits m.host × Fits m.client_id × Fits m.topic × PacketsFit m.data_packets
