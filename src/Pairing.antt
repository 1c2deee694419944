-- ===== src/Pairing.antt =====
-- crates/adaclaw-server/src/pairing.rs: the one-time code that pairs a client.
pub mod Bytes
pub mod State
pub mod Laws
mod Examples
