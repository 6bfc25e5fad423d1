-- ===== src/Serialization.antt =====
-- src/serialization: byte order, the frame buffer, its operators and the frame reader.
pub mod FrameBuffer
pub mod FrameBufferIo
pub mod FrameReader
pub mod BasicToken
