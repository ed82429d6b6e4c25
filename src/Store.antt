-- ===== src/Store.antt =====
-- server/store/: the pending notifications of the server.
pub mod ChannelId
pub mod Filter
pub mod InMemory
