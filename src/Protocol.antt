-- ===== src/Protocol.antt =====
-- internal/protocol/protocol.go: message frames, the two handlers, retries and streams.
pub mod Bytes
pub mod Frame
pub mod Handler
pub mod Processor
pub mod Stream
