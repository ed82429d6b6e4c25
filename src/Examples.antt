-- ===== src/Examples.antt =====
-- The results at concrete inputs, and tests of the definitions.
mod Messages
mod Stores
mod Brokers
mod Api
mod Broadcasts
mod Devices
mod Mailboxes
mod Redialers
mod Pools
mod Sessions
mod Wires
mod Keepers
mod Counters
