-- ===== src/Rag/Query.antt =====
-- internal/rag/query_processor.go: the preprocessing of a query. The matches of regular expressions
-- are parameters; a map is a `Dict`, in one order in which Go may range over it.
pub mod Tables
pub mod Process
pub mod Expansion
pub mod Tests
use syara_ai.Base.{
  ℕ, zero, suc, ◌+◌, ◌-◌, ◌*◌, ◌/◌, ◌≤◌, ◌<◌, ◌≡◌, ◌≢◌, ◌⊎◌, inl, inr, refl, sym, ap, ◌∙◌, subst,
  Bool, true, false, ◌&&◌, ◌||◌, not, Option, none, some, List, [], ◌∷◌, ◌++◌, map, ◌==◌, ltb, leb,
  if◌then◌else◌, Bool-cases, Option-cases, length, take, drop, get_elem?, All, Text, codes, text_eq,
  text_eq_iff, text_equality, arith, Dict, lookup, insert, append_assoc, append-nil,
}
use syara_ai.Base.{contains, index, fields, join, to_lower, to_upper, trim_space, has_prefix, any}
use syara_ai.Rag.Query.Tables.{synonym_map, topic_map, stop_words}

pub data QueryIntent : Type 0 where
  intent_factual : QueryIntent
  intent_comparison : QueryIntent
  intent_calculation : QueryIntent
  intent_latest : QueryIntent
  intent_definition : QueryIntent
  intent_procedure : QueryIntent
  intent_compliance : QueryIntent
  intent_unknown : QueryIntent

pub data EntityType : Type 0 where
  entity_standard_number : EntityType
  entity_date : EntityType
  entity_topic : EntityType
  entity_organization : EntityType
  entity_product : EntityType
  entity_regulation : EntityType

pub record Entity : Type 0 where
  pub type : EntityType
  pub value : Text
  pub span : ℕ × ℕ

-- A range of dates is that of its year, from the first of January to the end of December.
pub record SuggestedFilters : Type 0 where
  pub source_type : Text
  pub categories : List Text
  pub standard_number : Text
  pub date_range : Option ℕ

pub record ProcessedQuery : Type 0 where
  pub original : Text
  pub normalized : Text
  pub entities : List Entity
  pub expanded_terms : List Text
  pub intent : QueryIntent
  pub filters : SuggestedFilters
  pub keywords : List Text
  pub islamic_terms : List Text

-- The regular expressions are given by their matches: the bounds of each match, the year that is
-- found or the empty text, and whether a pattern matches.
pub record QueryProcessor : Type 0 where
  pub synonyms : Dict Text (List Text)
  pub topics : Dict Text (List Text)
  pub intent_patterns : List (QueryIntent × List (Text → Bool))
  pub find_standards : Text → List (ℕ × ℕ)
  pub find_dates : Text → List (ℕ × ℕ)
  pub find_year : Text → Text
  pub stops : List Text

-- The synonyms that `CustomSynonyms` adds.
merge_synonyms : Dict Text (List Text) → Dict Text (List Text) → Dict Text (List Text)
unfolding lookup insert
merge_synonyms [] m = m
merge_synonyms ((k, v) ∷ custom) m =
    merge_synonyms custom (insert k (elim (lookup k m) [ none ↦ v | some old ↦ old ++ v ]) m)

-- `intents` stands for the patterns of `buildIntentPatterns`.
unfoldable pub new_query_processor :
    List (QueryIntent × List (Text → Bool))
    → (Text → List (ℕ × ℕ))
    → (Text → List (ℕ × ℕ))
    → (Text → Text)
    → Dict Text (List Text)
    → QueryProcessor
unfolding merge_synonyms
new_query_processor intents find_standards find_dates find_year custom_synonyms = record {
  synonyms = merge_synonyms custom_synonyms synonym_map;
  topics = topic_map;
  intent_patterns = intents;
  find_standards = find_standards;
  find_dates = find_dates;
  find_year = find_year;
  stops = stop_words;
}

-- The characters that `[^\w\s\-/]` does not match.
abbrev is_kept : ℕ → Bool
is_kept c =
    (leb b'0' c && leb c b'9')
    || ((leb b'a' c && leb c b'z')
        || ((leb b'A' c && leb c b'Z')
            || (c == b'_'
                || (c == b'-'
                    || (c == b'/' || (c == 32 || (c == 9 || (c == 10 || (c == 12 || c == 13)))))))))

unfoldable pub normalize : Text → Text
unfolding to_lower fields join trim_space
normalize query =
    let lowered = join (fields (to_lower query)) (codes " ") in
    let cleaned = map (λ (c : ℕ). if is_kept c then c else 32) lowered in
    trim_space (join (fields cleaned) (codes " "))

-- The bytes between two bounds.
abbrev text_between : Text → ℕ × ℕ → Text
text_between query (start, stop) = take (stop - start) (drop start query)

unfoldable pub match_entities : EntityType → (Text → Text) → Text → List (ℕ × ℕ) → List Entity
match_entities type value query [] = []
match_entities type value query (span ∷ spans) =
    record { type = type; value = value (text_between query span); span = span }
    ∷ match_entities type value query spans

-- The entities of the names that stand in the query, each at its first place.
unfoldable pub name_entities : EntityType → (Text → Text) → Text → List Text → List Entity
unfolding index
name_entities type value query [] = []
name_entities type value query (name ∷ names) =
    let rest = name_entities type value query names in
    elim (index query name) [
      | none ↦ rest
      | some i ↦ record { type = type; value = value name; span = (i, i + length name) } ∷ rest
    ]

abbrev organizations : List Text
organizations =
    codes "bnm" ∷ codes "bank negara" ∷ codes "aaoifi" ∷ codes "ifsb" ∷ codes "masb" ∷ []

unfoldable pub extract_entities : QueryProcessor → Text → List Entity
unfolding match_entities name_entities to_upper
extract_entities qp query =
    match_entities entity_standard_number to_upper query (qp.find_standards query)
    ++ (match_entities entity_date (λ s. s) query (qp.find_dates query)
        ++ (name_entities entity_topic (λ s. s) query
              (map (λ (t : Text × List Text). t.0) qp.topics)
            ++ name_entities entity_organization to_upper query organizations))

keywords_of : QueryProcessor → List Text → List Text
keywords_of qp [] = []
keywords_of qp (word ∷ words) =
    let rest = keywords_of qp words in
    if any (text_eq word) qp.stops || ltb (length word) 3 then rest else word ∷ rest

unfoldable pub extract_keywords : QueryProcessor → Text → List Text
unfolding keywords_of fields
extract_keywords qp query = keywords_of qp (fields query)

terms_of : QueryProcessor → List Text → List Text
unfolding lookup
terms_of qp [] = []
terms_of qp (word ∷ words) =
    let rest = terms_of qp words in
    elim (lookup word qp.synonyms) [ none ↦ rest | some synonyms ↦ word ∷ rest ]

unfoldable pub identify_islamic_terms : QueryProcessor → Text → List Text
unfolding terms_of fields
identify_islamic_terms qp query = terms_of qp (fields query)

-- The synonyms of the words, one word after another.
unfoldable pub synonyms_of : QueryProcessor → List Text → List Text
unfolding lookup
synonyms_of qp [] = []
synonyms_of qp (word ∷ words) =
    let rest = synonyms_of qp words in
    elim (lookup word qp.synonyms) [ none ↦ rest | some synonyms ↦ synonyms ++ rest ]

-- `seen[term]`.
unfoldable pub is_seen : Dict Text Bool → Text → Bool
unfolding lookup
is_seen seen term = elim (lookup term seen) [ none ↦ false | some b ↦ b ]

unfoldable pub unique_from : Dict Text Bool → List Text → List Text
unfolding is_seen insert
unique_from seen [] = []
unique_from seen (term ∷ terms) =
    let skipped = unique_from seen terms in
    let kept = unique_from (insert term true seen) terms in
    if is_seen seen term then skipped else term ∷ kept

unfoldable pub expand_query : QueryProcessor → Text → List Text
unfolding synonyms_of unique_from fields
expand_query qp query = unique_from [] (synonyms_of qp (fields query))

intent_from : List (QueryIntent × List (Text → Bool)) → Text → QueryIntent
intent_from [] query = intent_unknown
intent_from ((intent, patterns) ∷ intents) query =
    let later = intent_from intents query in
    if any (λ (matches : Text → Bool). matches query) patterns then intent else later

unfoldable pub classify_intent : QueryProcessor → Text → QueryIntent
unfolding intent_from to_lower
classify_intent qp query = intent_from qp.intent_patterns (to_lower query)
