-- ===== src/Heartbeat.antt =====
-- The heartbeat scheduler of src/cron/scheduler.rs.
pub mod Tasks
pub mod Target
pub mod Scheduler
pub mod Parse
pub mod Ticks
pub mod Follow
mod Examples
pub mod RoundTrip
