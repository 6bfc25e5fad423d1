-- ===== src/Messages/Equality/Agreement.antt =====
-- `equals` decides equality.
use cpp_prototype.Common.{◌≡◌, ◌↔◌, ◌≢◌, Bool, true, List, [], ◌∷◌, ok, err, undefined, arith}
use cpp_prototype.Common.Key.{bytes_key, ℤ_key, same_iff}
use cpp_prototype.Messages.Message.{
  DataPacket, ForwardedUnicastData, Message, authentication, authenticated, multicast, unicast,
  forwarded_subscription, notification, subscription, forwarded_multicast, forwarded_unicast,
  message_type,
}
use cpp_prototype.Messages.Equality.{
  same_bool, same_packet, same_packets, same_authentication, same_authenticated, same_multicast,
  same_unicast, same_forwarded_subscription, same_notification, same_subscription,
  same_forwarded_multicast, same_forwarded_unicast, equals,
}

same_bool_iff : (a b : Bool) → (same_bool a b ≡ true) ↔ (a ≡ b)
same_bool_iff a b = ground arith

same_packet_iff : (d e : DataPacket) → (same_packet d e ≡ true) ↔ (d ≡ e)
unfolding same_packet
same_packet_iff d e = ground (
  arith,
  same_iff d.entitlement e.entitlement,
  same_iff d.content_type e.content_type,
  same_iff d.payload e.payload,
)

same_packets_iff : (ds es : List DataPacket) → (same_packets ds es ≡ true) ↔ (ds ≡ es)
unfolding same_packets
same_packets_iff [] [] = ground arith
same_packets_iff [] (e ∷ es) = ground arith
same_packets_iff (d ∷ ds) [] = ground arith
same_packets_iff (d ∷ ds) (e ∷ es) = ground (arith, same_packet_iff d e, same_packets_iff ds es)

same_forwarded_unicast_iff :
    (a b : ForwardedUnicastData) → (same_forwarded_unicast a b ≡ true) ↔ (a ≡ b)
unfolding same_forwarded_unicast
same_forwarded_unicast_iff a b = ground (
  arith,
  same_iff a.user b.user,
  same_iff a.host b.host,
  same_iff a.client_id b.client_id,
  same_iff a.topic b.topic,
  same_packets_iff a.data_packets b.data_packets,
)

-- Comparing two messages gives true exactly where they are equal.
pub equals_iff : (m n : Message) → (equals m n ≡ ok true) ↔ (m ≡ n)
unfolding equals same_authentication same_authenticated same_multicast same_unicast
    same_forwarded_subscription same_notification same_subscription same_forwarded_multicast
equals_iff (authentication a) (authentication b) =
    ground (arith, same_iff a.method b.method, same_iff a.payload b.payload)
equals_iff (authenticated a) (authenticated b) =
    ground (arith, same_bool_iff a.is_authenticated b.is_authenticated)
equals_iff (multicast a) (multicast b) =
    ground (arith, same_iff a.topic b.topic, same_packets_iff a.data_packets b.data_packets)
equals_iff (unicast a) (unicast b) = ground (
  arith,
  same_iff a.client_id b.client_id,
  same_iff a.topic b.topic,
  same_packets_iff a.data_packets b.data_packets,
)
equals_iff (forwarded_subscription a) (forwarded_subscription b) = ground (
  arith,
  same_iff a.user b.user,
  same_iff a.host b.host,
  same_iff a.client_id b.client_id,
  same_iff a.topic b.topic,
  same_bool_iff a.is_add b.is_add,
)
equals_iff (notification a) (notification b) =
    ground (arith, same_iff a.topic_pattern b.topic_pattern, same_bool_iff a.is_add b.is_add)
equals_iff (subscription a) (subscription b) =
    ground (arith, same_iff a.topic b.topic, same_bool_iff a.is_add b.is_add)
equals_iff (forwarded_multicast a) (forwarded_multicast b) = ground (
  arith,
  same_iff a.user b.user,
  same_iff a.host b.host,
  same_iff a.topic b.topic,
  same_packets_iff a.data_packets b.data_packets,
)
equals_iff (forwarded_unicast a) (forwarded_unicast b) =
    ground (arith, same_forwarded_unicast_iff a b)
equals_iff m n = ground arith

-- Comparing two messages of different types is undefined behaviour.
pub equals-undefined :
    (m n : Message) → message_type m ≢ message_type n → equals m n ≡ err undefined
unfolding equals message_type
equals-undefined m n ne = ground arith
