-- ===== src/Agent/Prompt/Citations.antt =====
-- internal/agent/orchestrator.go: the citations of a response.
use syara_ai.Base.{
  ℕ, zero, suc, ◌+◌, ◌≤◌, ◌≡◌, refl, ap, ◌∙◌, min, Bool-cases, inl, inr, ◌⊎◌, Option-cases, List,
  [], ◌∷◌, ◌++◌, ltb, leb, leb→le, length, take, Text, codes, last_index, arith,
}
use syara_ai.Rag.Chunk.{RetrievedChunk}
use syara_ai.Agent.Prompt.{
  Citation, truncate_for_citation, citations_from, extract_citations_from_chunks,
}

-- The text, or a beginning of at most `max_len` bytes of it with an ellipsis.
abbrev pub IsShortened : ℕ → Text → Text → Type 0
IsShortened max_len content short =
    ((short ≡ content) × (length content ≤ max_len))
    ⊎ ((n : ℕ) × (n ≤ max_len) × (short ≡ take n content ++ codes "..."))

take-take : (n k : ℕ) (s : Text) → take n (take k s) ≡ take (min n k) s
take-take zero k s = ap (λ j. take j s) (let e : 0 ≡ min 0 k = omega arith in e)
take-take (suc n) zero s = ap (λ j. take j s) (let e : 0 ≡ min (suc n) 0 = omega arith in e)
take-take (suc n) (suc k) [] =
    ap (λ j. take j []) (let e : suc (min n k) ≡ min (suc n) (suc k) = omega arith in e)
take-take (suc n) (suc k) (c ∷ s) =
    let e : suc (min n k) ≡ min (suc n) (suc k) = omega arith in
    ap (◌∷◌ c) (take-take n k s) ∙ ap (λ j. take j (c ∷ s)) e

truncate_for_citation-IsShortened :
    (content : Text) (max_len : ℕ)
    → IsShortened max_len content (truncate_for_citation content max_len)
unfolding truncate_for_citation
truncate_for_citation-IsShortened content max_len =
    elim (Bool-cases (leb (length content) max_len)) [
      | inl short ↦
          inl (rw (short, truncate_for_citation) refl, leb→le (length content) max_len short)
      | inr long ↦ elim (Option-cases (last_index (take max_len content) (codes " "))) [
        | inl unspaced ↦ inr (max_len, omega arith, rw (long, unspaced, truncate_for_citation) refl)
        | inr (i, spaced) ↦ elim (Bool-cases (ltb max_len (i + 30))) [
          | inl near ↦ inr (
            min i max_len,
            omega arith,
            rw (long, spaced, near, truncate_for_citation)
                (ap (λ t. t ++ codes "...") (take-take i max_len content)),
          )
          | inr far ↦ inr (max_len, omega arith, rw (long, spaced, far, truncate_for_citation) refl)
        ]
      ]
    ]

module _ {F : Type 0} where
  -- The citations are numbered from `i + 1` and cite the chunks in order, with shortened contents.
  abbrev pub AreCitations : ℕ → List (RetrievedChunk F) → List (Citation F) → Type 0
  AreCitations i [] [] = Unit
  AreCitations i (c ∷ cs) [] = ⊥
  AreCitations i [] (d ∷ ds) = ⊥
  AreCitations i (c ∷ cs) (d ∷ ds) =
      (d.index ≡ i + 1)
      × (d.chunk_id ≡ c.id)
      × (d.document_id ≡ c.document_id)
      × IsShortened 200 c.content d.content
      × AreCitations (i + 1) cs ds

  citations_from-AreCitations :
      (i : ℕ) (chunks : List (RetrievedChunk F)) → AreCitations i chunks (citations_from i chunks)
  unfolding citations_from
  citations_from-AreCitations i [] = tt
  citations_from-AreCitations i (c ∷ cs) = (
    refl,
    refl,
    refl,
    truncate_for_citation-IsShortened c.content 200,
    citations_from-AreCitations (i + 1) cs,
  )

  -- A response has one citation for each retrieved chunk, numbered 1, 2 and so on in their order,
  -- with the chunk's identifiers and its content, or a beginning of at most 200 bytes of it with an
  -- ellipsis.
  pub extract_citations_from_chunks-AreCitations :
      (chunks : List (RetrievedChunk F))
      → AreCitations 0 chunks (extract_citations_from_chunks chunks)
  unfolding extract_citations_from_chunks
  extract_citations_from_chunks-AreCitations chunks = citations_from-AreCitations 0 chunks
