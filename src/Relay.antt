-- ===== src/Relay.antt =====
-- crates/outlay-relay/src/lib.rs: the memoryless database and the bundled relays. The children hold
-- the port scan (`Bind`), the choice of a backend (`Spawn`) and what is proved of them.
pub mod Memoryless
pub mod Bind
pub mod Scan
pub mod Ports
pub mod Spawn
