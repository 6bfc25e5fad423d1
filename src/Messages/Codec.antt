-- ===== src/Messages/Codec.antt =====
-- `serialize` and `deserialize` of src/messages: each message's body, and the dispatch on its type.
pub mod Wire
pub mod Reading
pub mod Writing
use cpp_prototype.Common.{Bool, List, Bytes, Outcome, ok, err, invalid_message}
use cpp_prototype.Common.Int.{ℤ}
use cpp_prototype.Serialization.FrameBuffer.{FrameBuffer, empty}
use cpp_prototype.Serialization.FrameBufferIo.{
  Reader, Writer, pure, lift, ◌>>=◌, ◌<<◌, write_char, read_char, write_bool, read_bool,
  write_int32, read_int32, write_string, read_string, write_vector, read_vector,
}
use cpp_prototype.Messages.MessageType.{
  MessageType, authentication_request, authentication_response, multicast_data, unicast_data,
  forwarded_subscription_request, notification_request, subscription_request,
  forwarded_multicast_data, forwarded_unicast_data, other, write_type, read_type,
}
use cpp_prototype.Messages.Message.{
  DataPacket, AuthenticationRequest, AuthenticationResponse, MulticastData, UnicastData,
  ForwardedSubscriptionRequest, NotificationRequest, SubscriptionRequest, ForwardedMulticastData,
  ForwardedUnicastData, Message, authentication, authenticated, multicast, unicast,
  forwarded_subscription, notification, subscription, forwarded_multicast, forwarded_unicast,
  message_type,
}

unfoldable pub write_packet : DataPacket → Writer
write_packet d frame =
    ok frame
    << write_int32 d.entitlement
    << write_string d.content_type
    << write_vector write_char d.payload

unfoldable pub read_packet : Reader DataPacket
read_packet = do
  entitlement ← read_int32
  content_type ← read_string
  payload ← read_vector read_char
  pure (record { entitlement = entitlement; content_type = content_type; payload = payload })

abbrev pub write_packets : List DataPacket → Writer
write_packets = write_vector write_packet

abbrev pub read_packets : Reader (List DataPacket)
read_packets = read_vector read_packet

-- `serialize_body` of each subclass.
unfoldable pub write_authentication : AuthenticationRequest → Writer
write_authentication m frame = ok frame << write_string m.method << write_string m.payload

unfoldable pub write_authenticated : AuthenticationResponse → Writer
write_authenticated m frame = ok frame << write_bool m.is_authenticated

unfoldable pub write_multicast : MulticastData → Writer
write_multicast m frame = ok frame << write_string m.topic << write_packets m.data_packets

unfoldable pub write_unicast : UnicastData → Writer
write_unicast m frame =
    ok frame << write_string m.client_id << write_string m.topic << write_packets m.data_packets

unfoldable pub write_forwarded_subscription : ForwardedSubscriptionRequest → Writer
write_forwarded_subscription m frame =
    ok frame
    << write_string m.user
    << write_string m.host
    << write_string m.client_id
    << write_string m.topic
    << write_bool m.is_add

unfoldable pub write_notification : NotificationRequest → Writer
write_notification m frame = ok frame << write_string m.topic_pattern << write_bool m.is_add

unfoldable pub write_subscription : SubscriptionRequest → Writer
write_subscription m frame = ok frame << write_string m.topic << write_bool m.is_add

unfoldable pub write_forwarded_multicast : ForwardedMulticastData → Writer
write_forwarded_multicast m frame =
    ok frame
    << write_string m.user
    << write_string m.host
    << write_string m.topic
    << write_packets m.data_packets

unfoldable pub write_forwarded_unicast : ForwardedUnicastData → Writer
write_forwarded_unicast m frame =
    ok frame
    << write_string m.user
    << write_string m.host
    << write_string m.client_id
    << write_string m.topic
    << write_packets m.data_packets

-- The virtual call.
unfoldable pub serialize_body : Message → Writer
unfolding write_authentication write_authenticated write_multicast write_unicast
    write_forwarded_subscription write_notification write_subscription write_forwarded_multicast
    write_forwarded_unicast
serialize_body (authentication m) = write_authentication m
serialize_body (authenticated m) = write_authenticated m
serialize_body (multicast m) = write_multicast m
serialize_body (unicast m) = write_unicast m
serialize_body (forwarded_subscription m) = write_forwarded_subscription m
serialize_body (notification m) = write_notification m
serialize_body (subscription m) = write_subscription m
serialize_body (forwarded_multicast m) = write_forwarded_multicast m
serialize_body (forwarded_unicast m) = write_forwarded_unicast m

-- `Message::serialize`
unfoldable pub serialize : Message → Outcome FrameBuffer
serialize m = ok empty << write_type (message_type m) << serialize_body m

-- `deserialize_body` of each subclass, on the object that `make_shared` has made.
unfoldable pub read_authentication : Reader Message
read_authentication = do
  method ← read_string
  payload ← read_string
  pure (authentication (record { method = method; payload = payload }))

unfoldable pub read_authenticated : Reader Message
read_authenticated = do
  is_authenticated ← read_bool
  pure (authenticated (record { is_authenticated = is_authenticated }))

unfoldable pub read_multicast : Reader Message
read_multicast = do
  topic ← read_string
  data_packets ← read_packets
  pure (multicast (record { topic = topic; data_packets = data_packets }))

unfoldable pub read_unicast : Reader Message
read_unicast = do
  client_id ← read_string
  topic ← read_string
  data_packets ← read_packets
  pure (unicast (record { client_id = client_id; topic = topic; data_packets = data_packets }))

unfoldable pub read_forwarded_subscription : Reader Message
read_forwarded_subscription = do
  user ← read_string
  host ← read_string
  client_id ← read_string
  topic ← read_string
  is_add ← read_bool
  pure (
      forwarded_subscription (record {
        user = user;
        host = host;
        client_id = client_id;
        topic = topic;
        is_add = is_add;
      }))

unfoldable pub read_notification : Reader Message
read_notification = do
  topic_pattern ← read_string
  is_add ← read_bool
  pure (notification (record { topic_pattern = topic_pattern; is_add = is_add }))

unfoldable pub read_subscription : Reader Message
read_subscription = do
  topic ← read_string
  is_add ← read_bool
  pure (subscription (record { topic = topic; is_add = is_add }))

unfoldable pub read_forwarded_multicast : Reader Message
read_forwarded_multicast = do
  user ← read_string
  host ← read_string
  topic ← read_string
  data_packets ← read_packets
  pure (
      forwarded_multicast
        (record { user = user; host = host; topic = topic; data_packets = data_packets }))

unfoldable pub read_forwarded_unicast : Reader Message
read_forwarded_unicast = do
  user ← read_string
  host ← read_string
  client_id ← read_string
  topic ← read_string
  data_packets ← read_packets
  pure (
      forwarded_unicast (record {
        user = user;
        host = host;
        client_id = client_id;
        topic = topic;
        data_packets = data_packets;
      }))

-- `Message::make_shared`, and `deserialize_body` of the subclass that it makes.
unfoldable pub deserialize_body : MessageType → Reader Message
unfolding read_authentication read_authenticated read_multicast read_unicast
    read_forwarded_subscription read_notification read_subscription read_forwarded_multicast
    read_forwarded_unicast
deserialize_body authentication_request = read_authentication
deserialize_body authentication_response = read_authenticated
deserialize_body multicast_data = read_multicast
deserialize_body unicast_data = read_unicast
deserialize_body forwarded_subscription_request = read_forwarded_subscription
deserialize_body notification_request = read_notification
deserialize_body subscription_request = read_subscription
deserialize_body forwarded_multicast_data = read_forwarded_multicast
deserialize_body forwarded_unicast_data = read_forwarded_unicast
deserialize_body (other c) = lift (err invalid_message)

-- `Message::deserialize`
unfoldable pub deserialize : Reader Message
deserialize = do t ← read_type; deserialize_body t
