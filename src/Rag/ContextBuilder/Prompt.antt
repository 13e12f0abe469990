-- ===== src/Rag/ContextBuilder/Prompt.antt =====
-- internal/rag/context_builder.go: what is made of a built context: the prompt, the list of sources
-- and the ids of the documents.
use syara_ai.Base.{
  ◌≡◌, refl, concat, Bool, true, false, ◌||◌, Bool-cases, Option, none, some, List, [], ◌∷◌, ◌++◌,
  any, any-append, inl, inr, Text, codes, text_eq, text_eq_refl, text_eq_iff, decimal, arith,
}
use syara_ai.Rag.Chunk.{RetrievedChunk}
use syara_ai.Rag.ContextBuilder.{BuiltContext, Citation, add_new, number_line}
use syara_ai.Rag.ContextBuilder.Duplicates.{any-add_new}

-- A part of the prompt that is left out where its text is empty.
section_text : Text → Text → Text
section_text heading [] = []
section_text heading (c ∷ text) = heading ++ ((c ∷ text) ++ codes "\n\n")

context_section : {F : Type 0} → Option (BuiltContext F) → Text
unfolding section_text
context_section none = []
context_section (some context) = section_text (codes "## Relevant Context\n\n") context.text

unfoldable pub build_prompt : {F : Type 0} → Option (BuiltContext F) → Text → Text → Text
unfolding context_section section_text
build_prompt context query system_prompt = concat (
    section_text [] system_prompt
    ∷ context_section context
    ∷ codes "## User Question\n\n"
    ∷ query
    ∷ [])

-- A part of a line that is left out where its value is empty.
between : Text → Text → Text → Text
between before [] after = []
between before (c ∷ value) after = before ++ ((c ∷ value) ++ after)

citation_line : {F : Type 0} → Citation F → Text
unfolding between number_line decimal
citation_line c = concat (
    codes "["
    ∷ decimal c.index
    ∷ codes "] "
    ∷ c.document_title
    ∷ number_line (codes ", Page ") c.page []
    ∷ between (codes ", Section: ") c.section []
    ∷ between (codes " (") c.standard_num (codes ")")
    ∷ codes "\n"
    ∷ [])

citation_lines : {F : Type 0} → List (Citation F) → Text
citation_lines [] = []
citation_lines (c ∷ citations) = citation_line c ++ citation_lines citations

unfoldable pub build_citation_text : {F : Type 0} → List (Citation F) → Text
unfolding citation_lines citation_line between number_line decimal
build_citation_text [] = []
build_citation_text (c ∷ citations) = codes "\n\n## Sources\n\n" ++ citation_lines (c ∷ citations)

-- The loop of `GetIncludedDocumentIDs`; `seen` holds the ids that were appended.
unfoldable pub add_ids : {F : Type 0} → List (RetrievedChunk F) → List Text → List Text
unfolding add_new
add_ids [] ids = ids
add_ids (chunk ∷ chunks) ids = add_ids chunks (add_new chunk.document_id ids)

-- The empty list stands for `nil`.
unfoldable pub get_included_document_ids : {F : Type 0} → Option (BuiltContext F) → List Text
unfolding add_ids
get_included_document_ids none = []
get_included_document_ids (some context) = add_ids context.included_chunks []

-- No text stands twice.
abbrev pub IsUnrepeated : List Text → Type 0
IsUnrepeated [] = Unit
IsUnrepeated (t ∷ ts) = (any (text_eq t) ts ≡ false) × IsUnrepeated ts

text_eq_flip : (s t : Text) → text_eq s t ≡ false → text_eq t s ≡ false
text_eq_flip s t h = elim (Bool-cases (text_eq t s)) [
  | inl same ↦
      let e : t ≡ s = (text_eq_iff t s).0 same in let r : text_eq s s ≡ true = text_eq_refl s in cc
  | inr other ↦ other
]

append-IsUnrepeated :
    (ts : List Text) (s : Text)
    → any (text_eq s) ts ≡ false
    → IsUnrepeated ts
    → IsUnrepeated (ts ++ s ∷ [])
append-IsUnrepeated [] s new h = (refl, tt)
append-IsUnrepeated (t ∷ ts) s new (first, h) = (
  ground (arith, any-append (text_eq t) ts (s ∷ []), text_eq_flip s t (ground arith)),
  append-IsUnrepeated ts s (ground arith) h,
)

add_new-IsUnrepeated : (s : Text) (ts : List Text) → IsUnrepeated ts → IsUnrepeated (add_new s ts)
unfolding add_new
add_new-IsUnrepeated s ts h = elim (Bool-cases (any (text_eq s) ts)) [
  | inl old ↦ rw old h
  | inr new ↦ rw new (append-IsUnrepeated ts s new h)
]

add_ids-IsUnrepeated :
    {F : Type 0} (chunks : List (RetrievedChunk F)) (ids : List Text)
    → IsUnrepeated ids
    → IsUnrepeated (add_ids chunks ids)
unfolding add_ids
add_ids-IsUnrepeated [] ids h = h
add_ids-IsUnrepeated (chunk ∷ chunks) ids h =
    add_ids-IsUnrepeated chunks (add_new chunk.document_id ids)
      (add_new-IsUnrepeated chunk.document_id ids h)

-- A chunk of the document.
abbrev pub is_of : {F : Type 0} → Text → RetrievedChunk F → Bool
is_of id chunk = text_eq id chunk.document_id

any-add_ids :
    {F : Type 0} (chunks : List (RetrievedChunk F)) (ids : List Text) (id : Text)
    → any (text_eq id) (add_ids chunks ids) ≡ (any (text_eq id) ids || any (is_of id) chunks)
unfolding add_ids
any-add_ids [] ids id = ground arith
any-add_ids (chunk ∷ chunks) ids id = ground (
  arith,
  any-add_ids chunks (add_new chunk.document_id ids) id,
  any-add_new (text_eq id) chunk.document_id ids,
)

-- The document ids of a built context hold no id twice, and an id stands there exactly if the
-- context includes a chunk of that document.
get_included_document_ids-IsUnrepeated :
    {F : Type 0} (context : BuiltContext F) (id : Text)
    → let ids = get_included_document_ids (some context) in
      IsUnrepeated ids × (any (text_eq id) ids ≡ any (is_of id) context.included_chunks)
unfolding get_included_document_ids
get_included_document_ids-IsUnrepeated context id =
    (add_ids-IsUnrepeated context.included_chunks [] tt, any-add_ids context.included_chunks [] id)
