-- ===== src/Messages/Message.antt =====
-- The fields of the messages: src/messages/_data_packet.hpp, _message.hpp and one header for each
-- message. A member that the source names `data` is called `payload` here.
use cpp_prototype.Common.{Bool, List, Bytes}
use cpp_prototype.Common.Int.{ℤ}
use cpp_prototype.Messages.MessageType.{
  MessageType, authentication_request, authentication_response, multicast_data, unicast_data,
  forwarded_subscription_request, notification_request, subscription_request,
  forwarded_multicast_data, forwarded_unicast_data,
}

pub record DataPacket : Type 0 where
  pub entitlement : ℤ
  pub content_type : Bytes
  pub payload : Bytes

pub record AuthenticationRequest : Type 0 where
  pub method : Bytes
  pub payload : Bytes

pub record AuthenticationResponse : Type 0 where
  pub is_authenticated : Bool

pub record MulticastData : Type 0 where
  pub topic : Bytes
  pub data_packets : List DataPacket

pub record UnicastData : Type 0 where
  pub client_id : Bytes
  pub topic : Bytes
  pub data_packets : List DataPacket

pub record ForwardedSubscriptionRequest : Type 0 where
  pub user : Bytes
  pub host : Bytes
  pub client_id : Bytes
  pub topic : Bytes
  pub is_add : Bool

pub record NotificationRequest : Type 0 where
  pub topic_pattern : Bytes
  pub is_add : Bool

pub record SubscriptionRequest : Type 0 where
  pub topic : Bytes
  pub is_add : Bool

pub record ForwardedMulticastData : Type 0 where
  pub user : Bytes
  pub host : Bytes
  pub topic : Bytes
  pub data_packets : List DataPacket

pub record ForwardedUnicastData : Type 0 where
  pub user : Bytes
  pub host : Bytes
  pub client_id : Bytes
  pub topic : Bytes
  pub data_packets : List DataPacket

-- A Message is an object of one of its subclasses.
pub data Message : Type 0 where
  authentication : AuthenticationRequest → Message
  authenticated : AuthenticationResponse → Message
  multicast : MulticastData → Message
  unicast : UnicastData → Message
  forwarded_subscription : ForwardedSubscriptionRequest → Message
  notification : NotificationRequest → Message
  subscription : SubscriptionRequest → Message
  forwarded_multicast : ForwardedMulticastData → Message
  forwarded_unicast : ForwardedUnicastData → Message

-- The member `message_type`, which each constructor of a subclass sets.
unfoldable pub message_type : Message → MessageType
message_type (authentication m) = authentication_request
message_type (authenticated m) = authentication_response
message_type (multicast m) = multicast_data
message_type (unicast m) = unicast_data
message_type (forwarded_subscription m) = forwarded_subscription_request
message_type (notification m) = notification_request
message_type (subscription m) = subscription_request
message_type (forwarded_multicast m) = forwarded_multicast_data
message_type (forwarded_unicast m) = forwarded_unicast_data
