-- ===== src/Chunker/Split.antt =====
-- internal/chunker/chunker.go: a section that is too large, cut by paragraphs, sentences and words.
-- The tokenizer is a parameter, the number of tokens of a text.
pub mod Groups
pub mod Words
use syara_ai.Base.{
  ℕ, suc, ◌+◌, Bool, true, false, ◌&&◌, not, List, [], ◌∷◌, ◌++◌, ltb, if◌then◌else◌, length, Text,
  codes, text_eq, fields,
}
use syara_ai.Chunker.Texts.{split_paragraphs, split_sentences}
use syara_ai.Chunker.Section.{Chunk, ChunkMetadata, Section, create_chunk_from_text}

-- What a loop has read and made: the text not yet in a chunk and the sum of its parts' tokens, the
-- start of the next chunk and its index, and the chunks made.
pub record State : Type 0 where
  pub current_text : Text
  pub current_tokens : ℕ
  pub start_pos : ℕ
  pub chunk_index : ℕ
  pub chunks : List Chunk

abbrev pub start : ℕ → ℕ → State
start pos index = record {
  current_text = [];
  current_tokens = 0;
  start_pos = pos;
  chunk_index = index;
  chunks = [];
}

-- The part is added, behind the separator unless it is the first one.
abbrev pub add_part : Text → State → Text → ℕ → State
add_part separator st part tokens = record st {
  current_text =
      if text_eq st.current_text [] then part else st.current_text ++ (separator ++ part);
  current_tokens = st.current_tokens + tokens;
}

module _ (max_tokens : ℕ) (count_tokens : Text → ℕ) (metadata : ChunkMetadata)
    (section : Section) where
  -- The current text becomes a chunk, if it is not empty.
  abbrev pub flush_keeping_start : State → State
  flush_keeping_start st = if text_eq st.current_text [] then st else record {
    current_text = [];
    current_tokens = 0;
    start_pos = st.start_pos;
    chunk_index = suc st.chunk_index;
    chunks =
        st.chunks
        ++ create_chunk_from_text count_tokens metadata section st.current_text st.chunk_index
            st.start_pos
          ∷ [];
  }

  -- The same, with the start moved behind the text.
  abbrev pub flush : State → State
  flush st = record (flush_keeping_start st) { start_pos = st.start_pos + length st.current_text }

  -- The body of the loop of `splitByWords`.
  abbrev pub add_word : State → Text → State
  add_word st word =
      let tokens = count_tokens word in
      let st' = (if ltb max_tokens (st.current_tokens + tokens) then flush st else st) in
      add_part (codes " ") st' word tokens

  unfoldable pub add_words : State → List Text → State
  add_words st [] = st
  add_words st (word ∷ words) = add_words (add_word st word) words

  -- The chunks and the index of the next one.
  unfoldable pub split_by_words : Text → ℕ → ℕ → List Chunk × ℕ
  unfolding add_words
  split_by_words text index pos =
      let st = flush_keeping_start (add_words (start pos index) (fields text)) in
      (st.chunks, st.chunk_index)

  -- The body of the loop of `splitBySentences`: a sentence that is too long is cut by words.
  unfoldable pub add_sentence : State → Text → State
  unfolding split_by_words
  add_sentence st sent =
      let tokens = count_tokens sent in
      let fits =
        add_part (codes " ") (if ltb max_tokens (st.current_tokens + tokens) then flush st else st)
          sent tokens in
      let st' = flush st in
      let (more, index) = split_by_words sent st'.chunk_index st'.start_pos in
      let cut = record st' {
        start_pos = st'.start_pos + length sent + 1;
        chunk_index = index;
        chunks = st'.chunks ++ more;
      } in
      if ltb max_tokens tokens then cut else fits

  unfoldable pub add_sentences : State → List Text → State
  add_sentences st [] = st
  add_sentences st (sent ∷ sents) = add_sentences (add_sentence st sent) sents

  unfoldable pub split_by_sentences : Text → ℕ → ℕ → List Chunk × ℕ
  unfolding add_sentences
  split_by_sentences text index pos =
      let st = flush_keeping_start (add_sentences (start pos index) (split_sentences text)) in
      (st.chunks, st.chunk_index)

  -- The body of the loop of `splitByParagraphs`: a paragraph that is too long is cut by sentences,
  -- behind a chunk that does not move the start.
  unfoldable pub add_paragraph : State → Text → State
  unfolding split_by_sentences
  add_paragraph st para =
      let tokens = count_tokens para in
      let fits =
        add_part (codes "\n\n")
          (if ltb max_tokens (st.current_tokens + tokens) then flush st else st) para tokens in
      let st' = flush_keeping_start st in
      let (more, index) = split_by_sentences para st'.chunk_index st'.start_pos in
      let cut = record st' {
        start_pos = st'.start_pos + length para + 2;
        chunk_index = index;
        chunks = st'.chunks ++ more;
      } in
      if ltb max_tokens tokens then cut else fits

  unfoldable pub add_paragraphs : State → List Text → State
  add_paragraphs st [] = st
  add_paragraphs st (para ∷ paras) = add_paragraphs (add_paragraph st para) paras

  unfoldable pub split_by_paragraphs : ℕ → List Chunk × ℕ
  unfolding add_paragraphs
  split_by_paragraphs index =
      let st =
        flush_keeping_start
          (add_paragraphs (start section.start_pos index) (split_paragraphs section.content)) in
      (st.chunks, st.chunk_index)
