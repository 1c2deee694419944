-- ===== src/Agents.antt =====
-- The agents: a conversation's messages, its compaction, and the engine of src/agents.
pub mod Message
pub mod Parser
pub mod Dispatch
pub mod Compact
pub mod Engine
pub mod Loop
pub mod Turn
mod Examples
