-- ===== src/Tools.antt =====
-- internal/tools/registry.go: the tool registry.
pub mod Registry
pub mod Names
pub mod Window
pub mod Recent
pub mod Stats
mod Tests
