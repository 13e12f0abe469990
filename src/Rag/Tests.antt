-- ===== src/Rag/Tests.antt =====
-- Runs of the context builder at concrete inputs, and its theorems there.
use mathlib.Core.List.{Sublistᴰ}
use syara_ai.Base.{
  some, ◌+◌, ◌+◌, none, ◌++◌, IsDistinct, lookup, insert, text_equality, ℕ, ◌*◌, ◌/◌, ◌≡◌, refl,
  true, List, [], ◌∷◌, ltb, leb, Text, codes, any, All, pos, decimal, sort_slice, map,
}
use syara_ai.Rag.Retriever.{add_results, fuse, reciprocal_rank_fusion}
use syara_ai.Rag.Retriever.Scores.{score_of, shares_of, sum_from, score_of-fuse}
use syara_ai.Rag.Chunk.{Float, RetrievedChunk}
use syara_ai.Rag.ContextBuilder.{
  raw, unset, BuiltContext, Citation, ContextBuilderConfig, ContextOptions, build, candidates,
  deduplicate_chunks, fill, format_chunk, keep_new, is_similar_content,
}
use syara_ai.Rag.ContextBuilder.Budget.{IsContextOf, build-IsContextOf}
use syara_ai.Rag.ContextBuilder.Prompt.{
  build_prompt, build_citation_text, add_ids, get_included_document_ids,
}
use syara_ai.Rag.ContextBuilder.Duplicates.{
  IsDissimilar, stands_for, deduplicate_chunks-IsDissimilar,
}

-- Hundredths.
abbrev hundredths : Float ℕ
hundredths = record {
  greater = λ a b. ltb b a;
  at_least = λ a b. leb b a;
  two_places = decimal;
  quotient = λ a b. 100 * a / b;
}

abbrev chunk : Text → ℕ → RetrievedChunk ℕ
chunk content similarity = record {
  id = content;
  document_id = codes "d";
  content = content;
  page_number = 3;
  section_title = [];
  similarity = similarity;
  source_type = [];
  document_title = codes "Murabahah";
  category = [];
  standard_num = [];
}

abbrev config : ContextBuilderConfig ℕ
config = record {
  max_tokens = 12;
  chunk_separator = codes "\n\n---\n\n";
  deduplicate_content = true;
  deduplication_threshold = 85;
  format_style = raw;
}

abbrev options : ContextOptions
options = record {
  max_tokens = pos 0;
  format_style = unset;
  system_prompt_tokens = 0;
  query_tokens = 0;
  response_buffer = 0;
}

abbrev three : List (RetrievedChunk ℕ)
three =
    chunk (codes "Gold is ribawi") 60
    ∷ chunk (codes "gold  is ribawi") 90
    ∷ chunk (codes "Zakat on gold and silver is due") 70
    ∷ []

three_deduplicated :
    map (λ (c : RetrievedChunk ℕ). c.similarity) (candidates hundredths config three) ≡ 90 ∷ 70 ∷ []
unfolding candidates deduplicate_chunks keep_new is_similar_content sort_slice
three_deduplicated = refl

-- The separator is not counted when the next chunk is measured: here the count exceeds the budget.
over_budget : (build hundredths config three options).token_count ≡ 14
unfolding build candidates deduplicate_chunks keep_new is_similar_content sort_slice fill
    format_chunk
over_budget = refl

build-IsContextOf_example :
    let sorted = sort_slice (λ a b. ltb b.similarity a.similarity) three in
    IsContextOf hundredths config options
      (deduplicate_chunks hundredths config sorted)
      (build hundredths config three options)
build-IsContextOf_example = build-IsContextOf hundredths config three options

deduplicate_chunks-IsDissimilar_example :
    let kept = deduplicate_chunks hundredths config three in
    IsDissimilar hundredths config kept
    × All (λ c. any (λ k. stands_for hundredths config k c) kept ≡ true) three
    × Sublistᴰ kept three
deduplicate_chunks-IsDissimilar_example = deduplicate_chunks-IsDissimilar hundredths config three

-- The shares are 1000 / (60 + rank + 1).
abbrev share : ℕ → ℕ
share rank = 1000 / (61 + rank)

abbrev gold : RetrievedChunk ℕ
gold = chunk (codes "gold") 60

abbrev silver : RetrievedChunk ℕ
silver = chunk (codes "silver") 90

-- A chunk that stands in both lists comes first.
fused :
    map
      (λ (c : RetrievedChunk ℕ). c.id)
      (reciprocal_rank_fusion hundredths ◌+◌ share share
        (◌*◌ 100)
        (silver ∷ gold ∷ [])
        (gold ∷ [])
        5)
    ≡ codes "gold" ∷ codes "silver" ∷ []
unfolding reciprocal_rank_fusion fuse add_results lookup insert sort_slice
fused = refl

score_of-fuse_example :
    let scores = fuse hundredths ◌+◌ share share (silver ∷ gold ∷ []) (gold ∷ []) in
    IsDistinct scores
    × (score_of hundredths ◌+◌ (codes "gold") scores
        ≡ sum_from hundredths ◌+◌ none (
            shares_of hundredths ◌+◌ share 0 (codes "gold") (silver ∷ gold ∷ [])
            ++ shares_of hundredths ◌+◌ share 0 (codes "gold") (gold ∷ [])))
score_of-fuse_example =
    score_of-fuse hundredths ◌+◌ share share (silver ∷ gold ∷ []) (gold ∷ []) (codes "gold")

-- A page of 0 and an empty section or standard are left out.
abbrev citation_of : ℕ → ℕ → Text → Citation ℕ
citation_of index page standard = record {
  index = index;
  chunk_id = codes "c";
  document_id = codes "d";
  document_title = codes "Murabahah";
  source_type = [];
  section = [];
  page = page;
  standard_num = standard;
  similarity = 60;
}

two_sources :
    build_citation_text (citation_of 1 3 [] ∷ citation_of 2 0 (codes "FAS 28") ∷ [])
    ≡ codes "\n\n## Sources\n\n[1] Murabahah, Page 3\n[2] Murabahah (FAS 28)\n"
unfolding build_citation_text
two_sources = refl

abbrev two_chunks : BuiltContext ℕ
two_chunks = record {
  text = codes "Gold";
  token_count = 1;
  included_chunks = gold ∷ silver ∷ [];
  truncated_count = 0;
  citations = [];
}

prompt_with_context :
    build_prompt (some two_chunks) (codes "Why?") []
    ≡ codes "## Relevant Context\n\nGold\n\n## User Question\n\nWhy?"
unfolding build_prompt
prompt_with_context = refl

one_document : get_included_document_ids (some two_chunks) ≡ codes "d" ∷ []
unfolding get_included_document_ids add_ids
one_document = refl
