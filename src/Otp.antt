-- ===== src/Otp.antt =====
-- One-time passwords, crates/adaclaw-security/src/otp.rs.
pub mod Base32
pub mod Decode
pub mod RoundTrip
pub mod Totp
pub mod Uri
pub mod Secret
pub mod Verify
mod Examples
