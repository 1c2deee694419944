-- ===== src/Config.antt =====
-- The configuration: src/config/schema.rs, src/config/validation.rs and src/config/migration.rs.
pub mod Schema
pub mod Env
pub mod Migration
pub mod Validation
pub mod Checks
pub mod Rules
pub mod Routed
mod Examples
