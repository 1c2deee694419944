-- ===== src/State.antt =====
-- The persistent state of the daemon, src/state/mod.rs.
pub mod Manager
pub mod Disk
pub mod Saves
pub mod Crash
pub mod Tracking
mod Examples
