-- ===== src/Client.antt =====
-- client/: the session of a device with the server, and the messages it holds for applications; and
-- util/redialer.go, which repeats the attempts to connect.
pub mod Session
pub mod Hosts
pub mod Connect
pub mod SeenState
pub mod Messages
pub mod Once
pub mod Mailbox
pub mod Redialer
pub mod Keeper
