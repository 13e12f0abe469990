-- ===== src/Rag/Chunk.antt =====
-- internal/storage/vector_store.go: a retrieved chunk, without the fields that no model here reads.
-- `F` stands for float64.
use syara_ai.Base.{ℕ, Bool, Text}

-- What the code does with float64: the order, `%.2f`, and a quotient of two counts.
pub record Float (F : Type 0) : Type 0 where
  pub greater : F → F → Bool
  pub at_least : F → F → Bool
  pub two_places : F → Text
  pub quotient : ℕ → ℕ → F

-- An identifier is its text; `PageNumber` is not negative, 0 for none.
pub record RetrievedChunk (F : Type 0) : Type 0 where
  pub id : Text
  pub document_id : Text
  pub content : Text
  pub page_number : ℕ
  pub section_title : Text
  pub similarity : F
  pub source_type : Text
  pub document_title : Text
  pub category : Text
  pub standard_num : Text
