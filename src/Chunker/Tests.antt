-- ===== src/Chunker/Tests.antt =====
-- Runs of the chunker at concrete inputs, and its theorems there.
use syara_ai.Base.{
  map, join, ◌≢◌, ℕ, ◌≡◌, ◌⊎◌, refl, List, [], ◌∷◌, ◌++◌, length, any, Text, codes, fields,
  trim_space, arith,
}
use syara_ai.Chunker.Texts.{split_paragraphs, split_sentences}
use syara_ai.Chunker.Section.{
  Boundary, Section, Chunk, ChunkMetadata, sort_boundaries, deduplicate_boundaries,
  split_by_section, untitled, create_chunk_from_text,
}
use syara_ai.Chunker.Section.Order.{
  IsStrictlyAscending, stands_at, deduplicate_boundaries-sort_boundaries,
}
use syara_ai.Chunker.Section.Tiling.{IsTiling, IsIntroduction, starts_at, split_by_section-IsTiling}
use syara_ai.Chunker.Split.{split_by_words, add_words}
use syara_ai.Chunker.Split.Words.{IsCutOf, split_by_words-IsCutOf}
use syara_ai.Chunker.Document.{ChunkerConfig, chunk_text, chunk_pages, add_overlap}
use syara_ai.Chunker.Document.Indices.{IsNumbered, chunk_text-IsNumbered}
use syara_ai.Chunker.Document.Overlap.{AreLengthened, add_overlap-AreLengthened}

paragraphs_split :
    split_paragraphs (codes "One.\n \n\n Two\nlines.\n\n") ≡ codes "One." ∷ codes "Two\nlines." ∷ []
unfolding split_paragraphs trim_space
paragraphs_split = refl

sentences_split :
    split_sentences (codes "See Art. 3. Is it riba? Yes!")
    ≡ codes "See Art. 3." ∷ codes "Is it riba?" ∷ codes "Yes!" ∷ []
unfolding split_sentences trim_space
sentences_split = refl

-- An empty part does not use up its stops, and the later sentences end with the stops before theirs.
stops_shifted :
    split_sentences (codes "! Is it? Yes. Good") ≡ codes "Is it!" ∷ codes "Yes?" ∷ codes "Good" ∷ []
unfolding split_sentences trim_space
stops_shifted = refl

abbrev boundary : ℕ → Boundary
boundary pos = record { pos = pos; level = 1; title = codes "t"; number = [] }

-- The headers of every text: at 6, 2 and again 6.
abbrev headers : Text → List Boundary
headers text = boundary 6 ∷ boundary 2 ∷ boundary 6 ∷ []

abbrev metadata : ChunkMetadata
metadata = record {
  document_id = codes "d";
  source_type = codes "bnm";
  document_title = codes "T";
  page_number = 0;
  extra = [];
}

abbrev small : ChunkerConfig
small = record { max_tokens = 4; overlap_tokens = 2; min_chunk_size = 1 }

-- The tokens of a text are its bytes.
abbrev bytes : Text → List ℕ
bytes text = text

deduplicate_boundaries-sort_boundaries_example :
    let sorted = deduplicate_boundaries (sort_boundaries (headers [])) in
    IsStrictlyAscending sorted × (any (stands_at 6) sorted ≡ any (stands_at 6) (headers []))
deduplicate_boundaries-sort_boundaries_example =
    deduplicate_boundaries-sort_boundaries (headers []) 6

split_by_section-IsTiling_example :
    let text = codes "ab# one# two" in
    ((headers text ≡ []) × (split_by_section headers text ≡ untitled [] text (length text) ∷ []))
    ⊎ ((headers text ≢ [])
        × (first : ℕ) × (front : List Section) × (sections : List Section) × (split_by_section
              headers text
            ≡ front ++ sections)
        × IsIntroduction text first front
        × IsTiling text first sections
        × ((pos : ℕ) → any (starts_at pos) sections ≡ any (stands_at pos) (headers text)))
split_by_section-IsTiling_example =
    split_by_section-IsTiling headers (codes "ab# one# two")
      (omega arith, (omega arith, (omega arith, tt)))

-- The space between the words is not measured: at the limit 4 the chunk has 5 tokens.
over_limit :
    map
      (λ (c : Chunk). c.token_count)
      (split_by_words 4 length metadata (untitled [] [] 0) (codes "aa bb") 0 0).0
    ≡ 5 ∷ []
unfolding split_by_words add_words create_chunk_from_text fields join
over_limit = refl

split_by_words-IsCutOf_example :
    IsCutOf 4 length
      (fields (codes "a bb cccccc d"))
      (split_by_words 4 length metadata (untitled [] [] 0) (codes "a bb cccccc d") 3 0).0
split_by_words-IsCutOf_example =
    split_by_words-IsCutOf 4 length metadata (untitled [] [] 0) (codes "a bb cccccc d") 3 0

chunk_text-IsNumbered_example :
    let chunks = chunk_text bytes bytes headers small (codes "ab# one# two") metadata in
    let paged =
      chunk_pages bytes bytes headers small
        (record { page_number = 1; text = codes "ab# one# two" } ∷ [])
        metadata in
    IsNumbered 0 (length chunks) chunks × IsNumbered 0 (length paged) paged
chunk_text-IsNumbered_example =
    chunk_text-IsNumbered bytes bytes headers small (codes "ab# one# two")
      (record { page_number = 1; text = codes "ab# one# two" } ∷ []) metadata

abbrev a_chunk : Text → Chunk
a_chunk content = record {
  content = content;
  token_count = length content;
  page_number = 0;
  section_title = [];
  section_hierarchy = [];
  chunk_index = 0;
  start_char = 0;
  end_char = 0;
  metadata = [];
}

add_overlap-AreLengthened_example :
    let out =
      add_overlap bytes bytes headers small (a_chunk (codes "one") ∷ a_chunk (codes "two") ∷ []) in
    ((small.overlap_tokens ≡ 0) × (out ≡ a_chunk (codes "one") ∷ a_chunk (codes "two") ∷ []))
    ⊎ ((small.overlap_tokens ≢ 0)
        × (ds : List Chunk) × (out ≡ a_chunk (codes "one") ∷ ds)
        × AreLengthened bytes bytes headers small (codes "one") (a_chunk (codes "two") ∷ []) ds)
add_overlap-AreLengthened_example =
    add_overlap-AreLengthened bytes bytes headers small (a_chunk (codes "one"))
      (a_chunk (codes "two") ∷ [])
