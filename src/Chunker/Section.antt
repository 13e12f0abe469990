-- ===== src/Chunker/Section.antt =====
-- internal/chunker/chunker.go: sections, chunks and the sections of a text. The regular expressions
-- for the headers give the boundaries, which are a parameter here; a chunk's random identifier is
-- left out.
pub mod Order
pub mod Tiling
use syara_ai.Base.{
  ℕ, zero, suc, ◌+◌, ◌-◌, true, false, Option, none, some, List, [], ◌∷◌, ◌++◌, ltb, ◌==◌,
  if◌then◌else◌, length, take, drop, Text, codes, trim_space, Dict, insert, text_equality,
}

-- The values of the metadata are texts.
pub record ChunkMetadata : Type 0 where
  pub document_id : Text
  pub source_type : Text
  pub document_title : Text
  pub page_number : ℕ
  pub extra : Dict Text Text

pub record Chunk : Type 0 where
  pub content : Text
  pub token_count : ℕ
  pub page_number : ℕ
  pub section_title : Text
  pub section_hierarchy : List Text
  pub chunk_index : ℕ
  pub start_char : ℕ
  pub end_char : ℕ
  pub metadata : Dict Text Text

-- `parents` are the titles on the chain of parents, the nearest first.
pub record Section : Type 0 where
  pub number : Text
  pub level : ℕ
  pub title : Text
  pub content : Text
  pub start_pos : ℕ
  pub end_pos : ℕ
  pub parents : List Text

pub record Boundary : Type 0 where
  pub pos : ℕ
  pub level : ℕ
  pub title : Text
  pub number : Text

-- The titles that are not empty, each before those of the sections inside it.
titles : List Text → List Text → List Text
titles [] hierarchy = hierarchy
titles ([] ∷ chain) hierarchy = titles chain hierarchy
titles ((c ∷ title) ∷ chain) hierarchy = titles chain ((c ∷ title) ∷ hierarchy)

unfoldable pub build_section_hierarchy : Section → List Text
unfolding titles
build_section_hierarchy section = titles (section.title ∷ section.parents) []

-- The loop over `metadata.Extra`.
with_extra : Dict Text Text → Dict Text Text → Dict Text Text
with_extra [] m = m
with_extra ((k, v) ∷ extra) m = with_extra extra (insert k v m)

unfoldable pub metadata_of : ChunkMetadata → Dict Text Text
unfolding with_extra
metadata_of metadata = with_extra metadata.extra (
    (codes "document_id", metadata.document_id)
    ∷ (codes "source_type", metadata.source_type)
    ∷ (codes "document_title", metadata.document_title)
    ∷ [])

module _ (count_tokens : Text → ℕ) (metadata : ChunkMetadata) (section : Section) where
  unfoldable pub create_chunk_from_text : Text → ℕ → ℕ → Chunk
  unfolding build_section_hierarchy metadata_of
  create_chunk_from_text content index start_pos = record {
    content = content;
    token_count = count_tokens content;
    page_number = metadata.page_number;
    section_title = section.title;
    section_hierarchy = build_section_hierarchy section;
    chunk_index = index;
    start_char = start_pos;
    end_char = start_pos + length content;
    metadata = metadata_of metadata;
  }

  unfoldable pub create_chunk : Text → ℕ → Chunk
  unfolding build_section_hierarchy metadata_of
  create_chunk content index = record {
    content = content;
    token_count = count_tokens content;
    page_number = metadata.page_number;
    section_title = section.title;
    section_hierarchy = build_section_hierarchy section;
    chunk_index = index;
    start_char = section.start_pos;
    end_char = section.end_pos;
    metadata = metadata_of metadata;
  }

-- One run of the inner loop of `sortBoundaries`: `n` swaps of neighbours.
unfoldable pub bubble : ℕ → List Boundary → List Boundary
bubble zero bs = bs
bubble (suc n) [] = []
bubble (suc n) (a ∷ []) = a ∷ []
bubble (suc n) (a ∷ b ∷ bs) = elim (ltb b.pos a.pos) [
  | true ↦ b ∷ bubble n (a ∷ bs)
  | false ↦ a ∷ bubble n (b ∷ bs)
]

-- The outer loop, with `n` rounds left, of `n` swaps and fewer.
unfoldable pub bubbles : ℕ → List Boundary → List Boundary
unfolding bubble
bubbles zero bs = bs
bubbles (suc n) bs = bubbles n (bubble (suc n) bs)

unfoldable pub sort_boundaries : List Boundary → List Boundary
unfolding bubbles
sort_boundaries bs = bubbles (length bs - 1) bs

-- The loop of `deduplicateBoundaries` behind the last boundary kept.
unfoldable pub distinct_after : Boundary → List Boundary → List Boundary
distinct_after b [] = b ∷ []
distinct_after b (c ∷ bs) = elim (c.pos == b.pos) [
  | true ↦ distinct_after b bs
  | false ↦ b ∷ distinct_after c bs
]

unfoldable pub deduplicate_boundaries : List Boundary → List Boundary
unfolding distinct_after
deduplicate_boundaries [] = []
deduplicate_boundaries (b ∷ bs) = distinct_after b bs

-- `text[from:to]`.
abbrev pub slice : Text → ℕ → ℕ → Text
slice text from to = take (to - from) (drop from text)

-- The sections that start at the boundaries.
unfoldable pub sections_at : Text → List Boundary → List Section
sections_at text [] = []
sections_at text (b ∷ bs) =
    let end_pos : ℕ = elim bs [ [] ↦ length text | next ∷ later ↦ next.pos ] in
    record {
      number = b.number;
      level = b.level;
      title = b.title;
      content = trim_space (slice text b.pos end_pos);
      start_pos = b.pos;
      end_pos = end_pos;
      parents = [];
    }
    ∷ sections_at text bs

abbrev pub untitled : Text → Text → ℕ → Section
untitled title content end_pos = record {
  number = [];
  level = 0;
  title = title;
  content = content;
  start_pos = 0;
  end_pos = end_pos;
  parents = [];
}

-- The section before the first boundary, if it is not blank.
unfoldable pub preamble : Text → ℕ → List Section
preamble text pos = elim (trim_space (take pos text)) [
  | [] ↦ []
  | c ∷ s ↦ untitled (codes "Introduction") (c ∷ s) pos ∷ []
]

unfoldable pub split_by_section : (Text → List Boundary) → Text → List Section
unfolding sort_boundaries deduplicate_boundaries sections_at preamble
split_by_section find_headers text =
    elim (deduplicate_boundaries (sort_boundaries (find_headers text))) [
      | [] ↦ untitled [] text (length text) ∷ []
      | b ∷ bs ↦ preamble text b.pos ++ sections_at text (b ∷ bs)
    ]
