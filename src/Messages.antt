-- ===== src/Messages.antt =====
-- src/messages: the nine messages, their wire format and their equality.
pub mod MessageType
pub mod Message
pub mod Codec
pub mod Equality
