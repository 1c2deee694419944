-- ===== src/RateLimit.antt =====
-- crates/adaclaw-security/src/ratelimit.rs: sliding-window counters and the limiter over them.
pub mod Window
pub mod Limiter
mod Examples
