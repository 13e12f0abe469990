-- ===== src/Rag/Query/Process.antt =====
-- internal/rag/query_processor.go: the suggested filters, the whole preprocessing, and the text that is
-- searched for.
use syara_ai.Base.{
  ℕ, ◌+◌, ◌-◌, ◌*◌, ◌||◌, none, some, List, [], ◌∷◌, ◌++◌, ltb, if◌then◌else◌, Text, codes,
  text_equality, lookup,
}
use syara_ai.Base.{contains, join, to_lower, has_prefix}
use syara_ai.Rag.Query.{
  entity_standard_number, entity_date, entity_topic, entity_organization, entity_product,
  entity_regulation, Entity, SuggestedFilters, ProcessedQuery, QueryProcessor, normalize,
  extract_entities, extract_keywords, identify_islamic_terms, unique_from, expand_query,
  classify_intent,
}

number_from : Text → ℕ → ℕ
number_from [] year = year
number_from (c ∷ s) year = number_from s (year * 10 + (c - b'0'))

-- The digits of a year compile as a pattern.
unfoldable pub extract_year : QueryProcessor → Text → ℕ
unfolding number_from
extract_year qp date = number_from (qp.find_year date) 0

-- What one entity adds to the filters.
unfoldable pub add_filter : QueryProcessor → Entity → SuggestedFilters → SuggestedFilters
unfolding to_lower has_prefix contains lookup extract_year
add_filter qp entity filters =
    let lowered = to_lower entity.value in
    let year = extract_year qp entity.value in
    elim entity.type [
      | entity_standard_number ↦ record filters {
        standard_number = entity.value;
        source_type =
            if has_prefix lowered (codes "fas")
              || (has_prefix lowered (codes "ss") || contains lowered (codes "aaoifi"))
            then codes "aaoifi"
            else if has_prefix lowered (codes "bnm") || has_prefix lowered (codes "gp")
            then codes "bnm"
            else filters.source_type;
      }
      | entity_organization ↦ record filters {
        source_type =
            if contains lowered (codes "bnm") || contains lowered (codes "bank negara")
            then codes "bnm"
            else if contains lowered (codes "aaoifi")
            then codes "aaoifi"
            else filters.source_type;
      }
      | entity_date ↦ if ltb 0 year then record filters { date_range = some year } else filters
      | entity_topic ↦ elim (lookup entity.value qp.topics) [
        | none ↦ filters
        | some categories ↦ record filters { categories = filters.categories ++ categories }
      ]
      | entity_product ↦ filters
      | entity_regulation ↦ filters
    ]

unfoldable pub add_filters : QueryProcessor → List Entity → SuggestedFilters → SuggestedFilters
unfolding add_filter
add_filters qp [] filters = filters
add_filters qp (entity ∷ entities) filters = add_filters qp entities (add_filter qp entity filters)

-- The source that the query's words suggest where no entity does.
abbrev infer_source : Text → Text → Text
infer_source lowered (c ∷ source) = c ∷ source
infer_source lowered [] =
    if contains lowered (codes "malaysia") || contains lowered (codes "bnm")
    then codes "bnm"
    else if contains lowered (codes "aaoifi") || contains lowered (codes "bahrain")
    then codes "aaoifi"
    else []

unfoldable pub suggest_filters : QueryProcessor → List Entity → Text → SuggestedFilters
unfolding add_filters contains to_lower
suggest_filters qp entities query =
    let filters =
      add_filters qp entities
        (record { source_type = []; categories = []; standard_number = []; date_range = none }) in
    record filters { source_type = infer_source (to_lower query) filters.source_type }

unfoldable pub process_query : QueryProcessor → Text → ProcessedQuery
unfolding normalize extract_entities extract_keywords identify_islamic_terms expand_query
    classify_intent suggest_filters
process_query qp query =
    let normalized = normalize query in
    let entities = extract_entities qp normalized in
    record {
      original = query;
      normalized = normalized;
      entities = entities;
      expanded_terms = expand_query qp normalized;
      intent = classify_intent qp query;
      filters = suggest_filters qp entities normalized;
      keywords = extract_keywords qp normalized;
      islamic_terms = identify_islamic_terms qp normalized;
    }

-- The parts that are not empty.
unfoldable pub nonempty_parts : List Text → List Text
nonempty_parts [] = []
nonempty_parts ([] ∷ parts) = nonempty_parts parts
nonempty_parts ((c ∷ s) ∷ parts) = (c ∷ s) ∷ nonempty_parts parts

unfoldable pub get_expanded_search_query : ProcessedQuery → Text
unfolding unique_from nonempty_parts join
get_expanded_search_query processed =
    join (unique_from [] (nonempty_parts (processed.normalized ∷ processed.expanded_terms)))
      (codes " ")
