-- ===== src/Storage.antt =====
-- internal/storage: the cache of the retrieval.
pub mod Cache
