-- ===== src/Rag/ContextBuilder.antt =====
-- internal/rag/context_builder.go: the context that is built from retrieved chunks, within a budget
-- of estimated tokens. Log lines are left out.
pub mod Budget
pub mod Duplicates
pub mod Parts
pub mod Prompt
use syara_ai.Base.{
  ℕ, suc, ◌+◌, ◌-◌, ◌/◌, concat, Bool, true, false, ◌&&◌, not, Option, none, some, List, [], ◌∷◌,
  ◌++◌, map, ltb, leb, ◌==◌, if◌then◌else◌, length, any, Text, codes, text_eq, ℤ, pos, is_nonpos,
  pos_part, fields, to_lower, join, decimal, sort_slice,
}
use syara_ai.Rag.Chunk.{Float, RetrievedChunk}

pub data FormatStyle : Type 0 where
  unset detailed compact raw : FormatStyle

pub record ContextBuilderConfig (F : Type 0) : Type 0 where
  pub max_tokens : ℕ
  pub chunk_separator : Text
  pub deduplicate_content : Bool
  pub deduplication_threshold : F
  pub format_style : FormatStyle

-- The reserves are not negative.
pub record ContextOptions : Type 0 where
  pub max_tokens : ℤ
  pub format_style : FormatStyle
  pub system_prompt_tokens : ℕ
  pub query_tokens : ℕ
  pub response_buffer : ℕ

pub record Citation (F : Type 0) : Type 0 where
  pub index : ℕ
  pub chunk_id : Text
  pub document_id : Text
  pub document_title : Text
  pub source_type : Text
  pub section : Text
  pub page : ℕ
  pub standard_num : Text
  pub similarity : F

pub record BuiltContext (F : Type 0) : Type 0 where
  pub text : Text
  pub token_count : ℕ
  pub included_chunks : List (RetrievedChunk F)
  pub truncated_count : ℕ
  pub citations : List (Citation F)

abbrev pub estimate_tokens : Text → ℕ
estimate_tokens s = (length s + 3) / 4

abbrev newline : Text
newline = codes "\n"

-- A line that is written where its value is not empty.
field_line : Text → Text → Text
field_line label [] = []
field_line label (c ∷ value) = label ++ ((c ∷ value) ++ newline)

pub normalize_content : Text → Text
unfolding to_lower fields join
normalize_content content = join (fields (to_lower content)) (codes " ")

-- The words as a set, in the order of their first use.
pub add_new : Text → List Text → List Text
add_new s seen = if any (text_eq s) seen then seen else seen ++ s ∷ []

to_set : List Text → List Text → List Text
unfolding add_new
to_set [] seen = seen
to_set (w ∷ ws) seen = to_set ws (add_new w seen)

count_in : List Text → List Text → ℕ
count_in [] set = 0
count_in (w ∷ ws) set = (if any (text_eq w) set then 1 else 0) + count_in ws set

-- A line that is written for a positive number.
number_line : Text → ℕ → Text → Text
unfolding decimal
number_line label n end = if ltb 0 n then label ++ (decimal n ++ end) else []

-- `NewContextBuilder`: zero values stand for the defaults; `zero_threshold` is the test `== 0`.
unfoldable pub new_context_builder :
    {F : Type 0} → (F → Bool) → F → ContextBuilderConfig F → ContextBuilderConfig F
new_context_builder is_zero default_threshold config = record config {
  max_tokens = if config.max_tokens == 0 then 3000 else config.max_tokens;
  chunk_separator =
      if text_eq config.chunk_separator [] then codes "\n\n---\n\n" else config.chunk_separator;
  deduplication_threshold =
      if is_zero config.deduplication_threshold
      then default_threshold
      else config.deduplication_threshold;
}

module _ {F : Type 0} (float : Float F) where
  format_detailed : RetrievedChunk F → ℕ → Text
  unfolding field_line decimal number_line
  format_detailed chunk index = concat (
      codes "[Source "
      ∷ decimal index
      ∷ codes "]\nDocument: "
      ∷ chunk.document_title
      ∷ newline
      ∷ field_line (codes "Source Type: ") chunk.source_type
      ∷ field_line (codes "Section: ") chunk.section_title
      ∷ number_line (codes "Page: ") chunk.page_number newline
      ∷ field_line (codes "Standard: ") chunk.standard_num
      ∷ field_line (codes "Category: ") chunk.category
      ∷ codes "Relevance: "
      ∷ float.two_places chunk.similarity
      ∷ codes "\n\n"
      ∷ chunk.content
      ∷ [])

  format_compact : RetrievedChunk F → ℕ → Text
  unfolding decimal number_line
  format_compact chunk index = concat (
      codes "["
      ∷ decimal index
      ∷ codes "] "
      ∷ chunk.document_title
      ∷ number_line (codes " (p.") chunk.page_number (codes ")")
      ∷ (if text_eq chunk.standard_num []
          then []
          else concat (codes " [" ∷ chunk.standard_num ∷ codes "]" ∷ []))
      ∷ newline
      ∷ chunk.content
      ∷ [])

  unfoldable pub format_chunk : FormatStyle → FormatStyle → RetrievedChunk F → ℕ → Text
  unfolding format_detailed format_compact
  format_chunk unset detailed chunk index = format_detailed chunk index
  format_chunk unset compact chunk index = format_compact chunk index
  format_chunk unset raw chunk index = chunk.content
  format_chunk unset unset chunk index = format_detailed chunk index
  format_chunk detailed _ chunk index = format_detailed chunk index
  format_chunk compact _ chunk index = format_compact chunk index
  format_chunk raw _ chunk index = chunk.content

  jaccard_similarity : Text → Text → F
  unfolding fields to_set count_in
  jaccard_similarity a b =
      let set_a = to_set (fields a) [] in
      let set_b = to_set (fields b) [] in
      let intersection = count_in set_a set_b in
      let union = (length set_a + length set_b) - intersection in
      if union == 0 then float.quotient 0 1 else float.quotient intersection union

  module _ (config : ContextBuilderConfig F) where
    unfoldable pub is_similar_content : Text → Text → Bool
    unfolding jaccard_similarity
    is_similar_content a b = float.at_least (jaccard_similarity a b) config.deduplication_threshold

    -- The loop of `deduplicateChunks`; `seen` are the keys of its map.
    unfoldable pub keep_new : List (RetrievedChunk F) → List Text → List (RetrievedChunk F)
    unfolding normalize_content add_new
    keep_new [] seen = []
    keep_new (chunk ∷ chunks) seen =
        let content = normalize_content chunk.content in
        elim (any (is_similar_content content) seen) [
          | true ↦ keep_new chunks seen
          | false ↦ chunk ∷ keep_new chunks (add_new content seen)
        ]

    unfoldable pub deduplicate_chunks : List (RetrievedChunk F) → List (RetrievedChunk F)
    deduplicate_chunks chunks = if leb (length chunks) 1 then chunks else keep_new chunks []

    abbrev pub citation : RetrievedChunk F → ℕ → Citation F
    citation chunk index = record {
      index = index;
      chunk_id = chunk.id;
      document_id = chunk.document_id;
      document_title = chunk.document_title;
      source_type = chunk.source_type;
      section = chunk.section_title;
      page = chunk.page_number;
      standard_num = chunk.standard_num;
      similarity = chunk.similarity;
    }

    -- The context with one more chunk, whose text is `formatted`.
    abbrev pub add_chunk : BuiltContext F → RetrievedChunk F → ℕ → Text → BuiltContext F
    add_chunk built chunk index formatted =
        let separator = (if text_eq built.text [] then [] else config.chunk_separator) in
        record built {
          text = built.text ++ (separator ++ formatted);
          token_count = built.token_count + estimate_tokens separator + estimate_tokens formatted;
          included_chunks = built.included_chunks ++ chunk ∷ [];
          citations = built.citations ++ citation chunk index ∷ [];
        }

    module _ (opts : ContextOptions) (available total : ℕ) where
      -- The loop of `Build` over the chunks left, the first of which is chunk `i`, of `total`.
      unfoldable pub fill : List (RetrievedChunk F) → ℕ → BuiltContext F → BuiltContext F
      fill [] i built = built
      fill (chunk ∷ chunks) i built =
          let formatted = format_chunk opts.format_style config.format_style chunk (i + 1) in
          elim (ltb available (built.token_count + estimate_tokens formatted)) [
            | true ↦ record built { truncated_count = total - length built.included_chunks }
            | false ↦ fill chunks (suc i) (add_chunk built chunk (i + 1) formatted)
          ]

    abbrev pub no_context : BuiltContext F
    no_context = record {
      text = [];
      token_count = 0;
      included_chunks = [];
      truncated_count = 0;
      citations = [];
    }

    abbrev pub available_tokens : ContextOptions → ℕ
    available_tokens opts =
        let max_tokens =
          (if is_nonpos opts.max_tokens then config.max_tokens else pos_part opts.max_tokens) in
        let available =
          max_tokens - (opts.system_prompt_tokens + opts.query_tokens + opts.response_buffer) in
        if available == 0 then max_tokens else available

    -- The chunks by falling similarity, near duplicates removed where that is asked for.
    unfoldable pub candidates : List (RetrievedChunk F) → List (RetrievedChunk F)
    candidates chunks =
        let sorted = sort_slice (λ a b. float.greater a.similarity b.similarity) chunks in
        if config.deduplicate_content then deduplicate_chunks sorted else sorted

    unfoldable pub build : List (RetrievedChunk F) → ContextOptions → BuiltContext F
    unfolding fill
    build [] opts = no_context
    build (chunk ∷ chunks) opts =
        let sorted = candidates (chunk ∷ chunks) in
        fill opts (available_tokens opts) (length sorted) sorted 0 no_context
