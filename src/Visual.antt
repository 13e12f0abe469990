-- ===== src/Visual.antt =====
-- internal/visual: the citations of retrieved chunks.
pub mod Snippet
pub mod Model
pub mod Citation
