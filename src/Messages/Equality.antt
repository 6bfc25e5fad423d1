-- ===== src/Messages/Equality.antt =====
-- `operator==` and `equals` of src/messages, which compare two messages.
pub mod Agreement
use cpp_prototype.Common.{
  Bool, true, false, ◌&&◌, List, [], ◌∷◌, Bytes, Outcome, ok, err, undefined,
}
use cpp_prototype.Common.Key.{bytes_key, ℤ_key, same}
use cpp_prototype.Messages.Message.{
  DataPacket, AuthenticationRequest, AuthenticationResponse, MulticastData, UnicastData,
  ForwardedSubscriptionRequest, NotificationRequest, SubscriptionRequest, ForwardedMulticastData,
  ForwardedUnicastData, Message, authentication, authenticated, multicast, unicast,
  forwarded_subscription, notification, subscription, forwarded_multicast, forwarded_unicast,
}

abbrev pub same_bool : Bool → Bool → Bool
same_bool true b = b
same_bool false true = false
same_bool false false = true

unfoldable pub same_packet : DataPacket → DataPacket → Bool
same_packet d e =
    same d.entitlement e.entitlement
    && same d.content_type e.content_type
    && same d.payload e.payload

-- `operator==` of two vectors.
unfoldable pub same_packets : List DataPacket → List DataPacket → Bool
same_packets [] [] = true
same_packets [] (e ∷ es) = false
same_packets (d ∷ ds) [] = false
same_packets (d ∷ ds) (e ∷ es) = same_packet d e && same_packets ds es

-- `operator==` of each subclass. The types of the two agree, since each sets its own.
unfoldable pub same_authentication : AuthenticationRequest → AuthenticationRequest → Bool
same_authentication a b = same a.method b.method && same a.payload b.payload

unfoldable pub same_authenticated : AuthenticationResponse → AuthenticationResponse → Bool
same_authenticated a b = same_bool a.is_authenticated b.is_authenticated

unfoldable pub same_multicast : MulticastData → MulticastData → Bool
same_multicast a b = same a.topic b.topic && same_packets a.data_packets b.data_packets

unfoldable pub same_unicast : UnicastData → UnicastData → Bool
same_unicast a b =
    same a.client_id b.client_id
    && same a.topic b.topic
    && same_packets a.data_packets b.data_packets

unfoldable pub same_forwarded_subscription :
    ForwardedSubscriptionRequest → ForwardedSubscriptionRequest → Bool
same_forwarded_subscription a b =
    same a.user b.user
    && same a.host b.host
    && same a.client_id b.client_id
    && same a.topic b.topic
    && same_bool a.is_add b.is_add

unfoldable pub same_notification : NotificationRequest → NotificationRequest → Bool
same_notification a b = same a.topic_pattern b.topic_pattern && same_bool a.is_add b.is_add

unfoldable pub same_subscription : SubscriptionRequest → SubscriptionRequest → Bool
same_subscription a b = same a.topic b.topic && same_bool a.is_add b.is_add

unfoldable pub same_forwarded_multicast : ForwardedMulticastData → ForwardedMulticastData → Bool
same_forwarded_multicast a b =
    same a.user b.user
    && same a.host b.host
    && same a.topic b.topic
    && same_packets a.data_packets b.data_packets

unfoldable pub same_forwarded_unicast : ForwardedUnicastData → ForwardedUnicastData → Bool
same_forwarded_unicast a b =
    same a.user b.user
    && same a.host b.host
    && same a.client_id b.client_id
    && same a.topic b.topic
    && same_packets a.data_packets b.data_packets

-- `equals`: the dynamic cast of a message of another class is a null pointer, which is dereferenced.
unfoldable pub equals : Message → Message → Outcome Bool
equals (authentication a) (authentication b) = ok (same_authentication a b)
equals (authenticated a) (authenticated b) = ok (same_authenticated a b)
equals (multicast a) (multicast b) = ok (same_multicast a b)
equals (unicast a) (unicast b) = ok (same_unicast a b)
equals (forwarded_subscription a) (forwarded_subscription b) = ok (same_forwarded_subscription a b)
equals (notification a) (notification b) = ok (same_notification a b)
equals (subscription a) (subscription b) = ok (same_subscription a b)
equals (forwarded_multicast a) (forwarded_multicast b) = ok (same_forwarded_multicast a b)
equals (forwarded_unicast a) (forwarded_unicast b) = ok (same_forwarded_unicast a b)
equals _ _ = err undefined
