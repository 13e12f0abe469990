-- ===== src/Chunker/Document.antt =====
-- internal/chunker/chunker.go: a document or its pages cut into chunks, with the overlap. The
-- tokenizer is a parameter: the tokens of a text, and the text of tokens.
pub mod Indices
pub mod Overlap
use syara_ai.Base.{
  ℕ, suc, ◌+◌, ◌-◌, ◌/◌, Bool, true, false, ◌&&◌, ◌||◌, not, none, some, List, [], ◌∷◌, ◌++◌, map,
  ltb, leb, ◌==◌, if◌then◌else◌, length, drop, last, any, Text, codes, text_eq, has_prefix, index,
  trim_space,
}
use syara_ai.Chunker.Section.{
  Chunk, ChunkMetadata, Section, Boundary, create_chunk, split_by_section,
}
use syara_ai.Chunker.Split.{split_by_paragraphs}

pub record ChunkerConfig : Type 0 where
  pub max_tokens : ℕ
  pub overlap_tokens : ℕ
  pub min_chunk_size : ℕ

pub record PageContent : Type 0 where
  pub page_number : ℕ
  pub text : Text

module _ (encode : Text → List ℕ) (decode : List ℕ → Text) where
  unfoldable pub count_tokens : Text → ℕ
  count_tokens text = length (encode text)

  module _ (find_headers : Text → List Boundary) (config : ChunkerConfig) where
    -- The chunks of a section and the index of the next chunk.
    unfoldable pub chunk_section : ChunkMetadata → Section → ℕ → List Chunk × ℕ
    chunk_section metadata section i =
        if leb (count_tokens section.content) config.max_tokens
        then (create_chunk count_tokens metadata section section.content i ∷ [], suc i)
        else split_by_paragraphs config.max_tokens count_tokens metadata section i

    -- The loop over sections.
    unfoldable pub chunk_sections : ChunkMetadata → List Section → ℕ → List Chunk × ℕ
    chunk_sections metadata [] i = ([], i)
    chunk_sections metadata (section ∷ sections) i =
        let (chunks, j) = chunk_section metadata section i in
        let (more, k) = chunk_sections metadata sections j in (chunks ++ more, k)

    -- The end of a text that the next chunk repeats, empty for a short text.
    unfoldable pub get_overlap_text : Text → Text
    unfolding index trim_space
    get_overlap_text text =
        let tokens = encode text in
        let overlap = trim_space (decode (last config.overlap_tokens tokens)) in
        let at_word : Text = elim (index overlap (codes " ")) [
          | none ↦ overlap
          | some i ↦ if ltb 0 i && ltb i (length overlap / 2) then drop (i + 1) overlap else overlap
        ] in
        if leb (length tokens) config.overlap_tokens then [] else trim_space at_word

    -- The chunk with the overlap from the content before it in front.
    unfoldable pub overlapped : Text → Chunk → Chunk
    overlapped before chunk =
        let overlap = get_overlap_text before in
        let content = overlap ++ (codes " " ++ chunk.content) in
        if not (text_eq overlap []) && not (has_prefix chunk.content overlap)
        then record chunk { content = content; token_count = count_tokens content }
        else chunk

    -- The loop of `addOverlap` behind a chunk with the content `before`, its own overlap included.
    unfoldable pub overlap_from : Text → List Chunk → List Chunk
    overlap_from before [] = []
    overlap_from before (chunk ∷ chunks) =
        let chunk' = overlapped before chunk in chunk' ∷ overlap_from chunk'.content chunks

    unfoldable pub add_overlap : List Chunk → List Chunk
    add_overlap [] = []
    add_overlap (chunk ∷ chunks) =
        if config.overlap_tokens == 0
        then chunk ∷ chunks
        else chunk ∷ overlap_from chunk.content chunks

    -- `Chunk` of a text.
    unfoldable pub chunk_text : Text → ChunkMetadata → List Chunk
    unfolding trim_space
    chunk_text text metadata =
        let chunks = (chunk_sections metadata (split_by_section find_headers text) 0).0 in
        if text_eq (trim_space text) [] then [] else add_overlap chunks

    -- The loop over pages.
    unfoldable pub chunk_page_list : ChunkMetadata → List PageContent → ℕ → List Chunk × ℕ
    chunk_page_list metadata [] i = ([], i)
    chunk_page_list metadata (page ∷ pages) i =
        let page_metadata = record metadata { page_number = page.page_number } in
        let (chunks, j) =
          chunk_sections page_metadata (split_by_section find_headers page.text) i in
        let numbered = map (λ (c : Chunk). record c { page_number = page.page_number }) chunks in
        let (more, k) = chunk_page_list metadata pages j in (numbered ++ more, k)

    unfoldable pub chunk_pages : List PageContent → ChunkMetadata → List Chunk
    chunk_pages pages metadata = add_overlap (chunk_page_list metadata pages 0).0

-- `IsArabicOrMalay` on the code points of a text.
unfoldable pub is_arabic_or_malay : List ℕ → Bool
is_arabic_or_malay runes =
    any
      (λ r.
        (leb 1536 r && leb r 1791) || ((leb 1872 r && leb r 1919) || (leb 2208 r && leb r 2303)))
      runes
