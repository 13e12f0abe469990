-- ===== src/Chunker.antt =====
-- internal/chunker/chunker.go: documents cut into chunks for retrieval.
pub mod Texts
pub mod Section
pub mod Split
pub mod Document
pub mod Tests
