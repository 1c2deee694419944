-- ===== src/Bus.antt =====
-- src/bus/router.rs: the routing of a message to an agent.
pub mod Glob
pub mod Router
pub mod Examples
