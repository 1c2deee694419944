-- ===== src/Tools.antt =====
-- The tools of crates/adaclaw-tools: which paths of the workspace they may touch.
pub mod Paths
mod Examples
