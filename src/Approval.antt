-- ===== src/Approval.antt =====
-- crates/adaclaw-security/src/approval.rs: which tool calls run, and who has to confirm them.
pub mod Types
pub mod Manager
pub mod Pending
pub mod Decide
pub mod History
pub mod Tokens
mod Examples
