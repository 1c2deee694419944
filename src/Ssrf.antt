-- ===== src/Ssrf.antt =====
-- crates/adaclaw-security/src/ssrf.rs: which addresses a tool may not request, and the check of a URL.
pub mod Address
pub mod Check
mod Examples
