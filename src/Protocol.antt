-- ===== src/Protocol.antt =====
-- protocol/: the messages that the push server and its clients exchange.
pub mod Messages
pub mod Split
pub mod Wire
