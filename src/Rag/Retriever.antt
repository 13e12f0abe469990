-- ===== src/Rag/Retriever.antt =====
-- internal/rag/retriever.go: the fusion of semantic and keyword results. Scores are numbers of a type
-- `F` for float64: `greater` is its order, `add` its sum, and the shares are the weights times
-- 1 / (k + rank + 1) for the ranks from 0.
pub mod Scores
pub mod Search
pub mod Tests
use syara_ai.Base.{
  ℕ, suc, Bool, true, false, none, some, List, [], ◌∷◌, map, if◌then◌else◌, take, Text, Dict,
  values, lookup, insert, sort_slice, text_equality,
}
use syara_ai.Rag.Chunk.{Float, RetrievedChunk}

pub record RrfItem (F : Type 0) : Type 0 where
  pub chunk : RetrievedChunk F
  pub score : F

module _ {F : Type 0} (float : Float F) (add : F → F → F) where
  abbrev pub Scores : Type 0
  Scores = Dict Text (RrfItem F)

  -- What a chunk becomes in the scores, at its rank.
  abbrev pub scored :
      (ℕ → F)
      → (RetrievedChunk F → RetrievedChunk F → RetrievedChunk F)
      → ℕ
      → RetrievedChunk F
      → Scores
      → RrfItem F
  scored share merge rank chunk scores = elim (lookup chunk.id scores) [
    | some existing ↦ record {
      chunk = merge existing.chunk chunk;
      score = add existing.score (share rank);
    }
    | none ↦ record { chunk = chunk; score = share rank }
  ]

  -- One loop over results from `rank` on; `merge` says what a chunk that is there becomes.
  unfoldable pub add_results :
      (ℕ → F)
      → (RetrievedChunk F → RetrievedChunk F → RetrievedChunk F)
      → ℕ
      → List (RetrievedChunk F)
      → Scores
      → Scores
  add_results share merge rank [] scores = scores
  add_results share merge rank (chunk ∷ chunks) scores =
      add_results share merge (suc rank) chunks
        (insert chunk.id (scored share merge rank chunk scores) scores)

  -- The higher similarity of the two.
  abbrev pub keep_higher : RetrievedChunk F → RetrievedChunk F → RetrievedChunk F
  keep_higher existing chunk =
      if float.greater chunk.similarity existing.similarity
      then record existing { similarity = chunk.similarity }
      else existing

  -- The scores after both loops.
  unfoldable pub fuse :
      (ℕ → F) → (ℕ → F) → List (RetrievedChunk F) → List (RetrievedChunk F) → Scores
  fuse semantic_share keyword_share semantic keyword =
      add_results keyword_share keep_higher 0 keyword
        (add_results semantic_share (λ existing chunk. existing) 0 semantic [])

  -- `scale` is the product with 100.
  unfoldable pub reciprocal_rank_fusion :
      (ℕ → F)
      → (ℕ → F)
      → (F → F)
      → List (RetrievedChunk F)
      → List (RetrievedChunk F)
      → ℕ
      → List (RetrievedChunk F)
  reciprocal_rank_fusion semantic_share keyword_share scale semantic keyword top_k =
      let results =
        sort_slice (λ (a : RrfItem F) (b : RrfItem F). float.greater a.score b.score)
          (values (fuse semantic_share keyword_share semantic keyword)) in
      map (λ (item : RrfItem F). record item.chunk { similarity = scale item.score })
        (take top_k results)
