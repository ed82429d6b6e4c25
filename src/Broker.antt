-- ===== src/Broker.antt =====
-- server/broker/: the sessions of devices, and what is delivered through them.
pub mod Session
pub mod Exchanges
pub mod Levels
pub mod Unicasts
pub mod Simple
pub mod Pending
