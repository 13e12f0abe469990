-- ===== src/Agent/Prompt.antt =====
-- internal/agent/orchestrator.go: the messages of a request and the citations of a response.
pub mod Citations
use syara_ai.Base.{
  ℕ, ◌+◌, Bool, true, false, none, some, List, [], ◌∷◌, ◌++◌, ltb, leb, if◌then◌else◌, length, take,
  Text, codes, text_eq, concat, decimal, last_index, to_upper,
}
use syara_ai.Llm.Provider
use syara_ai.Llm.Provider.{user, assistant, new_text_message}
use syara_ai.Agent.Memory
use syara_ai.Rag.Chunk.{RetrievedChunk}

-- The messages of the history whose role is "user" or "assistant".
unfoldable pub history_messages : List Memory.Message → List Provider.Message
history_messages [] = []
history_messages (msg ∷ history) =
    let rest = history_messages history in
    if text_eq msg.role (codes "user")
    then new_text_message user msg.content ∷ rest
    else if text_eq msg.role (codes "assistant")
    then new_text_message assistant msg.content ∷ rest
    else rest

-- A line that is written where its value is not empty.
context_line : Text → Text → Text → Text
context_line label [] end = []
context_line label (c ∷ value) end = label ++ ((c ∷ value) ++ end)

module _ {F : Type 0} where
  -- The loop of `buildContextString` from the chunk with the number `i + 1` on.
  context_chunks : ℕ → List (RetrievedChunk F) → Text
  unfolding context_line decimal to_upper
  context_chunks i [] = []
  context_chunks i (chunk ∷ chunks) = concat (
      codes "### [Source "
      ∷ decimal (i + 1)
      ∷ codes "] "
      ∷ context_line [] (to_upper chunk.source_type) (codes ": ")
      ∷ chunk.document_title
      ∷ codes "\n"
      ∷ context_line (codes "Section: ") chunk.section_title (codes "\n")
      ∷ (if ltb 0 chunk.page_number
          then concat (codes "Page: " ∷ decimal chunk.page_number ∷ codes "\n" ∷ [])
          else [])
      ∷ context_line (codes "Standard: ") chunk.standard_num (codes "\n")
      ∷ codes "\n"
      ∷ chunk.content
      ∷ codes "\n\n"
      ∷ context_chunks (i + 1) chunks
      ∷ [])

  unfoldable pub build_context_string : List (RetrievedChunk F) → Text
  unfolding context_chunks
  build_context_string [] = []
  build_context_string (chunk ∷ chunks) = concat (
      codes "## Relevant Context\n\n"
      ∷ codes "The following information was retrieved from the regulatory database:\n\n"
      ∷ context_chunks 0 (chunk ∷ chunks)
      ∷ codes "---\n\n"
      ∷ [])

  -- The content of the last message.
  unfoldable pub user_content : List (RetrievedChunk F) → Text → Text
  user_content [] user_message = user_message
  user_content (chunk ∷ chunks) user_message =
      build_context_string (chunk ∷ chunks) ++ (codes "\n\n" ++ user_message)

  unfoldable pub build_messages :
      List Memory.Message → List (RetrievedChunk F) → Text → List Provider.Message
  build_messages history chunks user_message =
      history_messages history ++ new_text_message user (user_content chunks user_message) ∷ []

-- A text of more than `max_len` bytes, cut there or at a space shortly before.
unfoldable pub truncate_for_citation : Text → ℕ → Text
unfolding last_index
truncate_for_citation content max_len =
    let truncated = take max_len content in
    let at_space : Text = elim (last_index truncated (codes " ")) [
      | some i ↦ if ltb max_len (i + 30) then take i truncated else truncated
      | none ↦ truncated
    ] in
    if leb (length content) max_len then content else at_space ++ codes "..."

pub record Citation (F : Type 0) : Type 0 where
  pub index : ℕ
  pub chunk_id : Text
  pub document_id : Text
  pub source : Text
  pub title : Text
  pub page : ℕ
  pub section : Text
  pub content : Text
  pub similarity : F

module _ {F : Type 0} where
  -- The loop of `extractCitationsFromChunks` from index `i` on.
  unfoldable pub citations_from : ℕ → List (RetrievedChunk F) → List (Citation F)
  unfolding truncate_for_citation
  citations_from i [] = []
  citations_from i (chunk ∷ chunks) =
      record {
        index = i + 1;
        chunk_id = chunk.id;
        document_id = chunk.document_id;
        source = chunk.source_type;
        title = chunk.document_title;
        page = chunk.page_number;
        section = chunk.section_title;
        content = truncate_for_citation chunk.content 200;
        similarity = chunk.similarity;
      }
      ∷ citations_from (i + 1) chunks

  unfoldable pub extract_citations_from_chunks : List (RetrievedChunk F) → List (Citation F)
  unfolding citations_from
  extract_citations_from_chunks chunks = citations_from 0 chunks
