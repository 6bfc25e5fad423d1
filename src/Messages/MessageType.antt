-- ===== src/Messages/MessageType.antt =====
-- src/messages/_message_type.hpp
use Prim.Native.String.{String}
use cpp_prototype.Common.{ℕ, ◌≡◌, refl, ◌==◌, if◌then◌else◌}
use cpp_prototype.Serialization.FrameBufferIo.{Reader, Writer, pure, ◌>>=◌, write_char, read_char}

-- `other c` is a char that a cast made a MessageType, and that is none of the enumerators.
pub data MessageType : Type 0 where
  authentication_request authentication_response multicast_data unicast_data : MessageType
  forwarded_subscription_request notification_request subscription_request : MessageType
  forwarded_multicast_data forwarded_unicast_data : MessageType
  other : ℕ → MessageType

-- static_cast<char>(t)
unfoldable pub to_char : MessageType → ℕ
to_char authentication_request = 1
to_char authentication_response = 2
to_char multicast_data = 3
to_char unicast_data = 4
to_char forwarded_subscription_request = 5
to_char notification_request = 6
to_char subscription_request = 7
to_char forwarded_multicast_data = 8
to_char forwarded_unicast_data = 9
to_char (other c) = c

-- static_cast<MessageType>(c)
unfoldable pub from_char : ℕ → MessageType
from_char c =
    if c == 1
    then authentication_request
    else if c == 2
    then authentication_response
    else if c == 3
    then multicast_data
    else if c == 4
    then unicast_data
    else if c == 5
    then forwarded_subscription_request
    else if c == 6
    then notification_request
    else if c == 7
    then subscription_request
    else if c == 8
    then forwarded_multicast_data
    else if c == 9
    then forwarded_unicast_data
    else other c

unfoldable pub to_string : MessageType → String
to_string authentication_request = "AuthenticationRequest"
to_string authentication_response = "AuthenticationResponse"
to_string multicast_data = "MulticastData"
to_string unicast_data = "UnicastData"
to_string forwarded_subscription_request = "ForwardedSubscriptionRequest"
to_string notification_request = "NotificationRequest"
to_string subscription_request = "SubscriptionRequest"
to_string forwarded_multicast_data = "ForwardedMulticastData"
to_string forwarded_unicast_data = "ForwardedUnicastData"
to_string (other c) = "unknown"

unfoldable pub write_type : MessageType → Writer
write_type t = write_char (to_char t)

unfoldable pub read_type : Reader MessageType
read_type = do c ← read_char; pure (from_char c)

-- A MessageType that is an enumerator.
abbrev pub IsEnumerator : MessageType → Type 0
IsEnumerator (other c) = ⊥
IsEnumerator _ = Unit {0}

-- The char of an enumerator of the message type is read back as that enumerator.
pub from_char-to_char : (t : MessageType) → IsEnumerator t → from_char (to_char t) ≡ t
unfolding from_char to_char
from_char-to_char (other c) h = absurd h
from_char-to_char authentication_request h = refl
from_char-to_char _ h = refl
