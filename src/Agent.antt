-- ===== src/Agent.antt =====
-- internal/agent: the orchestrator and the conversation memory.
pub mod Loop
pub mod Memory
pub mod Prompt
pub mod Process
pub mod Tests
