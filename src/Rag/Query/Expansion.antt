-- ===== src/Rag/Query/Expansion.antt =====
-- internal/rag/query_processor.go: which terms a query is expanded with.
use syara_ai.Base.{
  ◌≡◌, inl, inr, refl, ap, ◌∙◌, Bool, true, false, ◌&&◌, ◌||◌, not, none, some, List, [], ◌∷◌,
  Bool-cases, Option-cases, Text, text_eq, text_eq_iff, text_equality, arith, Dict, lookup, insert,
}
use syara_ai.Base.{any, any-append, fields, lookup-insert}
use syara_ai.Rag.ContextBuilder.Prompt.{IsUnrepeated}
use syara_ai.Rag.Query.{QueryProcessor, synonyms_of, is_seen, unique_from, expand_query}

is_seen-insert :
    (term x : Text) (seen : Dict Text Bool)
    → is_seen (insert term true seen) x ≡ (text_eq term x || is_seen seen x)
unfolding is_seen
is_seen-insert term x seen = ground (arith, lookup-insert term x true seen)

any-unique_from :
    (x : Text) (terms : List Text) (seen : Dict Text Bool)
    → any (text_eq x) (unique_from seen terms) ≡ (any (text_eq x) terms && not (is_seen seen x))
unfolding unique_from
any-unique_from x [] seen = refl
any-unique_from x (term ∷ terms) seen = ground (
  arith,
  any-unique_from x terms seen,
  any-unique_from x terms (insert term true seen),
  is_seen-insert term x seen,
  text_eq_iff x term,
  text_eq_iff term x,
)

unique_from-IsUnrepeated :
    (terms : List Text) (seen : Dict Text Bool) → IsUnrepeated (unique_from seen terms)
unfolding unique_from
unique_from-IsUnrepeated [] seen = tt
unique_from-IsUnrepeated (term ∷ terms) seen = elim (Bool-cases (is_seen seen term)) [
  | inl old ↦ rw old (unique_from-IsUnrepeated terms seen)
  | inr new ↦ rw new (
    ground (
      arith,
      any-unique_from term terms (insert term true seen),
      is_seen-insert term term seen,
      text_eq_iff term term,
    ),
    unique_from-IsUnrepeated terms (insert term true seen),
  )
]

-- Whether a term is a synonym of a word.
abbrev pub is_synonym : QueryProcessor → Text → Text → Bool
is_synonym qp term word = elim (lookup word qp.synonyms) [
  | none ↦ false
  | some synonyms ↦ any (text_eq term) synonyms
]

any-synonyms_of :
    (qp : QueryProcessor) (term : Text) (words : List Text)
    → any (text_eq term) (synonyms_of qp words) ≡ any (is_synonym qp term) words
unfolding synonyms_of
any-synonyms_of qp term [] = refl
any-synonyms_of qp term (word ∷ words) = elim (Option-cases (lookup word qp.synonyms)) [
  | inl unknown ↦ rw (unknown, any) (rw (unknown, is_synonym) (any-synonyms_of qp term words))
  | inr (synonyms, known) ↦
      rw (known, any)
        (rw (known, is_synonym)
          (any-append (text_eq term) synonyms (synonyms_of qp words)
            ∙ ap (λ b. any (text_eq term) synonyms || b) (any-synonyms_of qp term words)))
]

-- The terms that a query is expanded with hold no term twice, and a term stands there exactly if it
-- is a synonym of one of the query's words.
pub expand_query-IsUnrepeated :
    (qp : QueryProcessor) (query term : Text)
    → IsUnrepeated (expand_query qp query)
      × (any (text_eq term) (expand_query qp query) ≡ any (is_synonym qp term) (fields query))
unfolding expand_query is_seen lookup
expand_query-IsUnrepeated qp query term =
    let synonyms = synonyms_of qp (fields query) in
    (
      unique_from-IsUnrepeated synonyms [],
      any-unique_from term synonyms [] ∙ (ground arith) ∙ any-synonyms_of qp term (fields query),
    )
