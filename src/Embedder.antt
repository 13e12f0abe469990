-- ===== src/Embedder.antt =====
-- internal/embedder: embeddings of texts from a service, with a cache in front of it.
pub mod Cache
pub mod Batch
pub mod Tests
