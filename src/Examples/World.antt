-- ===== src/Examples/World.antt =====
-- A small world for the examples of the server: three users, their interactors, and patterns.
use cpp_prototype.Common.{true, false, [], ◌∷◌, Bytes, some, ◌||◌}
use cpp_prototype.Common.Int.{ℤ, pos}
use cpp_prototype.Common.Key.{bytes_key, same}
use cpp_prototype.Messages.Message.{DataPacket, MulticastData, UnicastData, SubscriptionRequest}
use cpp_prototype.Server.Effects.{Address, Peer, Regex}
use cpp_prototype.Server.Authorization
use cpp_prototype.Server.Authorization.{AuthorizationSpec, AuthorizationManager}
use cpp_prototype.Server.Publishers.{PublisherManager}

-- A pattern matches itself, and ".*" matches all.
abbrev pub rx : Regex
rx = record {
  is_valid = λ pattern_. true;
  matches = λ pattern_ topic. same pattern_ (b'.' ∷ b'*' ∷ []) || same pattern_ topic;
}

abbrev pub peers : Address → Peer
peers a = record { is_freed = false; user = a ∷ []; host = b'h' ∷ []; id = a ∷ a ∷ [] }

abbrev pub topic : Bytes
topic = b't' ∷ []

abbrev pub packet : ℤ → DataPacket
packet e = record { entitlement = e; content_type = []; payload = b'd' ∷ [] }

-- Two packets, the second under an entitlement that nobody has.
abbrev pub news : MulticastData
news = record { topic = topic; data_packets = packet (pos 0) ∷ packet (pos 1) ∷ [] }

abbrev pub letter : UnicastData
letter = record { client_id = 1 ∷ 1 ∷ []; topic = topic; data_packets = packet (pos 0) ∷ [] }

abbrev pub join_topic : SubscriptionRequest
join_topic = record { topic = topic; is_add = true }

abbrev pub all_spec : AuthorizationSpec
all_spec = record {
  user_pattern = b'.' ∷ b'*' ∷ [];
  topic_pattern = b'.' ∷ b'*' ∷ [];
  entitlements = pos 0 ∷ [];
  roles = Authorization.role_all;
}

abbrev pub authorizations : AuthorizationManager
authorizations = record {
  path = some (b'f' ∷ []);
  cmd_line_specs = [];
  repository = record { specs = all_spec ∷ []; cache = [] };
}

-- Interactor 1 publishes the topic.
abbrev pub publishers : PublisherManager
publishers = record {
  authorization_manager = authorizations;
  topic_publishers = (topic, 1 ∷ []) ∷ [];
  publisher_topics = (1, topic ∷ []) ∷ [];
}
