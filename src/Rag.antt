-- ===== src/Rag.antt =====
-- internal/rag: from the retrieved chunks to the prompt.
pub mod Chunk
pub mod ContextBuilder
pub mod Retriever
pub mod Evaluation
pub mod Query
pub mod Tests
