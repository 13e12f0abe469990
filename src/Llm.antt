-- ===== src/Llm.antt =====
-- internal/llm: the interface to the language models.
pub mod Provider
pub mod Fallback
pub mod Tests
