-- ===== src/Chunker/Document/Indices.antt =====
-- internal/chunker/chunker.go: the indices of the chunks.
use syara_ai.Base.{
  ℕ, suc, ◌+◌, ◌≡◌, refl, subst, ◌∙◌, Bool, true, false, Bool-cases, inl, inr, List, [], ◌∷◌, ◌++◌,
  map, length, ltb, leb, ◌==◌, if◌then◌else◌, Text, text_eq, fields, has_prefix, not, ◌&&◌,
  trim_space, arith,
}
use syara_ai.Chunker.Section.{
  Chunk, ChunkMetadata, Section, Boundary, create_chunk, create_chunk_from_text, split_by_section,
}
use syara_ai.Chunker.Texts.{split_paragraphs, split_sentences}
use syara_ai.Chunker.Split.{
  State, start, flush_keeping_start, flush, add_word, add_words, split_by_words, add_sentence,
  add_sentences, split_by_sentences, add_paragraph, add_paragraphs, split_by_paragraphs,
}
use syara_ai.Chunker.Document.{
  ChunkerConfig, PageContent, get_overlap_text, count_tokens, chunk_section, chunk_sections,
  overlapped, overlap_from, add_overlap, chunk_text, chunk_page_list, chunk_pages,
}

-- The chunks bear the numbers from `i` on, up to before `next`.
abbrev pub IsNumbered : ℕ → ℕ → List Chunk → Type 0
IsNumbered i next [] = next ≡ i
IsNumbered i next (c ∷ cs) = (c.chunk_index ≡ i) × IsNumbered (suc i) next cs

IsNumbered-length :
    (i next : ℕ) (chunks : List Chunk) → IsNumbered i next chunks → next ≡ i + length chunks
IsNumbered-length i next [] h = omega arith
IsNumbered-length i next (c ∷ cs) (e, h) = omega (arith, IsNumbered-length (suc i) next cs h)

-- The bound is the length.
counted :
    (next : ℕ) (chunks : List Chunk)
    → IsNumbered 0 next chunks
    → IsNumbered 0 (length chunks) chunks
counted next chunks h =
    let e : next ≡ length chunks = omega (arith, IsNumbered-length 0 next chunks h) in
    subst (λ n. IsNumbered 0 n chunks) e h

append-IsNumbered :
    (i j k : ℕ) (xs ys : List Chunk)
    → IsNumbered i j xs
    → IsNumbered j k ys
    → IsNumbered i k (xs ++ ys)
append-IsNumbered i j k [] ys p q = rw (← p) q
append-IsNumbered i j k (x ∷ xs) ys (e, p) q = (e, append-IsNumbered (suc i) j k xs ys p q)

module _ (max : ℕ) (count : Text → ℕ) (metadata : ChunkMetadata) (section : Section) (i : ℕ) where
  -- The chunks of a state are numbered from `i`, and its index is the next number.
  abbrev IsCounted : State → Type 0
  IsCounted st = IsNumbered i st.chunk_index st.chunks

  flush-IsCounted :
      (st : State)
      → IsCounted st
      → IsCounted (flush_keeping_start max count metadata section st)
        × IsCounted (flush max count metadata section st)
  unfolding create_chunk_from_text
  flush-IsCounted st h = elim (Bool-cases (text_eq st.current_text [])) [
    | inl empty ↦ rw empty (h, h)
    | inr full ↦
        let more =
          append-IsNumbered i st.chunk_index (suc st.chunk_index) st.chunks _ h (refl, refl) in
        rw full (more, more)
  ]

  -- A part is added, behind a flush where it would not fit.
  flush_if-IsCounted :
      (st : State) (over : Bool)
      → IsCounted st
      → IsCounted (if over then flush max count metadata section st else st)
  flush_if-IsCounted st true h = (flush-IsCounted st h).1
  flush_if-IsCounted st false h = h

  add_words-IsCounted :
      (st : State) (words : List Text)
      → IsCounted st
      → IsCounted (add_words max count metadata section st words)
  unfolding add_words
  add_words-IsCounted st [] h = h
  add_words-IsCounted st (word ∷ words) h =
      add_words-IsCounted (add_word max count metadata section st word) words
        (flush_if-IsCounted st (ltb max (st.current_tokens + count word)) h)

  -- The chunks of a part that is cut further go behind those made.
  cut-IsCounted :
      (st : State) (next : ℕ) (more : List Chunk)
      → IsCounted st
      → IsNumbered st.chunk_index next more
      → IsNumbered i next (st.chunks ++ more)
  cut-IsCounted st next more h h' = append-IsNumbered i st.chunk_index next st.chunks more h h'

module _ (max : ℕ) (count : Text → ℕ) (metadata : ChunkMetadata) (section : Section) where
  split_by_words-IsNumbered :
      (text : Text) (i pos : ℕ)
      → let (chunks, next) = split_by_words max count metadata section text i pos in
        IsNumbered i next chunks
  unfolding split_by_words
  split_by_words-IsNumbered text i pos =
      (flush-IsCounted max count metadata section i _
        (add_words-IsCounted max count metadata section i (start pos i) (fields text) refl)).0

  add_sentences-IsCounted :
      (i : ℕ) (st : State) (sents : List Text)
      → IsCounted max count metadata section i st
      → IsCounted max count metadata section i (add_sentences max count metadata section st sents)
  unfolding add_sentences add_sentence
  add_sentences-IsCounted i st [] h = h
  add_sentences-IsCounted i st (sent ∷ sents) h =
      add_sentences-IsCounted i (add_sentence max count metadata section st sent) sents
        (elim (Bool-cases (ltb max (count sent))) [
          | inl long ↦
              let st' = flush max count metadata section st in
              rw long (
                cut-IsCounted max count metadata section i st' _ _
                  (flush-IsCounted max count metadata section i st h).1
                  (split_by_words-IsNumbered sent st'.chunk_index st'.start_pos))
          | inr short ↦ rw short (
              flush_if-IsCounted max count metadata section i st
                (ltb max (st.current_tokens + count sent)) h)
        ])

  split_by_sentences-IsNumbered :
      (text : Text) (i pos : ℕ)
      → let (chunks, next) = split_by_sentences max count metadata section text i pos in
        IsNumbered i next chunks
  unfolding split_by_sentences
  split_by_sentences-IsNumbered text i pos =
      (flush-IsCounted max count metadata section i _
        (add_sentences-IsCounted i (start pos i) (split_sentences text) refl)).0

  add_paragraphs-IsCounted :
      (i : ℕ) (st : State) (paras : List Text)
      → IsCounted max count metadata section i st
      → IsCounted max count metadata section i (add_paragraphs max count metadata section st paras)
  unfolding add_paragraphs add_paragraph
  add_paragraphs-IsCounted i st [] h = h
  add_paragraphs-IsCounted i st (para ∷ paras) h =
      add_paragraphs-IsCounted i (add_paragraph max count metadata section st para) paras
        (elim (Bool-cases (ltb max (count para))) [
          | inl long ↦
              let st' = flush_keeping_start max count metadata section st in
              rw long (
                cut-IsCounted max count metadata section i st' _ _
                  (flush-IsCounted max count metadata section i st h).0
                  (split_by_sentences-IsNumbered para st'.chunk_index st'.start_pos))
          | inr short ↦ rw short (
              flush_if-IsCounted max count metadata section i st
                (ltb max (st.current_tokens + count para)) h)
        ])

  split_by_paragraphs-IsNumbered :
      (i : ℕ)
      → let (chunks, next) = split_by_paragraphs max count metadata section i in
        IsNumbered i next chunks
  unfolding split_by_paragraphs
  split_by_paragraphs-IsNumbered i =
      (flush-IsCounted max count metadata section i _ (
        add_paragraphs-IsCounted i (start section.start_pos i) (split_paragraphs section.content)
          refl)).0

module _ (encode : Text → List ℕ) (decode : List ℕ → Text) (find_headers : Text → List Boundary)
    (config : ChunkerConfig) where
  chunk_sections-IsNumbered :
      (metadata : ChunkMetadata) (sections : List Section) (i : ℕ)
      → let (chunks, next) = chunk_sections encode decode find_headers config metadata sections i in
        IsNumbered i next chunks
  unfolding chunk_sections chunk_section create_chunk
  chunk_sections-IsNumbered metadata [] i = refl
  chunk_sections-IsNumbered metadata (section ∷ sections) i =
      let count = count_tokens encode decode in
      let (chunks, j) = chunk_section encode decode find_headers config metadata section i in
      append-IsNumbered i j _ chunks _
        (elim (Bool-cases (leb (count section.content) config.max_tokens)) [
          | inl small ↦ rw small (refl, refl)
          | inr large ↦
              rw large (split_by_paragraphs-IsNumbered config.max_tokens count metadata section i)
        ])
        (chunk_sections-IsNumbered metadata sections j)

  paged-IsNumbered :
      (page i next : ℕ) (chunks : List Chunk)
      → IsNumbered i next chunks
      → IsNumbered i next (map (λ (c : Chunk). record c { page_number = page }) chunks)
  paged-IsNumbered page i next [] h = h
  paged-IsNumbered page i next (c ∷ cs) (e, h) = (e, paged-IsNumbered page (suc i) next cs h)

  chunk_page_list-IsNumbered :
      (metadata : ChunkMetadata) (pages : List PageContent) (i : ℕ)
      → let (chunks, next) = chunk_page_list encode decode find_headers config metadata pages i in
        IsNumbered i next chunks
  unfolding chunk_page_list
  chunk_page_list-IsNumbered metadata [] i = refl
  chunk_page_list-IsNumbered metadata (page ∷ pages) i =
      let metadata' = record metadata { page_number = page.page_number } in
      let sections = split_by_section find_headers page.text in
      let (chunks, j) = chunk_sections encode decode find_headers config metadata' sections i in
      append-IsNumbered i j _ _ _
        (paged-IsNumbered page.page_number i j chunks
          (chunk_sections-IsNumbered metadata' sections i))
        (chunk_page_list-IsNumbered metadata pages j)

  overlapped-chunk_index :
      (before : Text) (c : Chunk)
      → (overlapped encode decode find_headers config before c).chunk_index ≡ c.chunk_index
  unfolding overlapped
  overlapped-chunk_index before c =
      let overlap = get_overlap_text encode decode find_headers config before in
      elim (Bool-cases (not (text_eq overlap []) && not (has_prefix c.content overlap))) [
        | inl longer ↦ rw longer refl
        | inr same ↦ rw same refl
      ]

  overlap_from-IsNumbered :
      (before : Text) (i next : ℕ) (chunks : List Chunk)
      → IsNumbered i next chunks
      → IsNumbered i next (overlap_from encode decode find_headers config before chunks)
  unfolding overlap_from
  overlap_from-IsNumbered before i next [] h = h
  overlap_from-IsNumbered before i next (c ∷ cs) (e, h) = (
    overlapped-chunk_index before c ∙ e,
    overlap_from-IsNumbered (overlapped encode decode find_headers config before c).content (suc i)
        next cs h,
  )

  add_overlap-IsNumbered :
      (i next : ℕ) (chunks : List Chunk)
      → IsNumbered i next chunks
      → IsNumbered i next (add_overlap encode decode find_headers config chunks)
  unfolding add_overlap
  add_overlap-IsNumbered i next [] h = h
  add_overlap-IsNumbered i next (c ∷ cs) (e, h) = elim (Bool-cases (config.overlap_tokens == 0)) [
    | inl off ↦ rw off (e, h)
    | inr on ↦ rw on (e, overlap_from-IsNumbered c.content (suc i) next cs h)
  ]

  -- `Chunk` numbers its chunks 0, 1, 2 and so on, and so does `ChunkPages` over all pages.
  pub chunk_text-IsNumbered :
      (text : Text) (pages : List PageContent) (metadata : ChunkMetadata)
      → let chunks = chunk_text encode decode find_headers config text metadata in
        let paged = chunk_pages encode decode find_headers config pages metadata in
        IsNumbered 0 (length chunks) chunks × IsNumbered 0 (length paged) paged
  unfolding chunk_text chunk_pages
  chunk_text-IsNumbered text pages metadata = (
    elim (Bool-cases (text_eq (trim_space text) [])) [
      | inl blank ↦ rw blank refl
      | inr full ↦ rw full (
          counted _ _ (
            add_overlap-IsNumbered 0 _ _
              (chunk_sections-IsNumbered metadata (split_by_section find_headers text) 0)))
    ],
    counted _ _ (add_overlap-IsNumbered 0 _ _ (chunk_page_list-IsNumbered metadata pages 0)),
  )
