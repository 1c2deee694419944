-- ===== src/Estop.antt =====
-- crates/adaclaw-security/src/estop.rs: the emergency stop and its persisted state.
pub mod Controller
mod Examples
