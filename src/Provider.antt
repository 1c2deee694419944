-- ===== src/Provider.antt =====
-- crates/adaclaw-providers/src: error classes, the circuit breaker, and the chain of providers with
-- retries and failover.
pub mod Errors
pub mod Cooldown
pub mod Chain
mod Examples
