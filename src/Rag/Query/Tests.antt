-- ===== src/Rag/Query/Tests.antt =====
-- Runs of the query processor at concrete inputs, and its theorem there.
use syara_ai.Base.{◌≡◌, refl, Bool, true, List, [], ◌∷◌, Text, codes, text_eq, text_equality}
use syara_ai.Base.{any, fields}
use syara_ai.Rag.ContextBuilder.Prompt.{IsUnrepeated}
use syara_ai.Rag.Query.{
  QueryProcessor, QueryIntent, intent_factual, intent_latest, new_query_processor, normalize,
  classify_intent, expand_query, extract_entities,
}
use syara_ai.Rag.Query.Process.{suggest_filters}
use syara_ai.Rag.Query.Expansion.{is_synonym, expand_query-IsUnrepeated}

-- A processor whose patterns match nothing, but for the given intents.
abbrev processor : List (QueryIntent × List (Text → Bool)) → QueryProcessor
processor intents = new_query_processor intents (λ s. []) (λ s. []) (λ s. []) []

normalized : normalize (codes "  What is   Riba? ") ≡ codes "what is riba"
unfolding normalize
normalized = refl

expanded :
    expand_query (processor []) (codes "riba riba gharar")
    ≡ codes "interest"
      ∷ codes "usury"
      ∷ codes "prohibited interest"
      ∷ codes "uncertainty"
      ∷ codes "speculation"
      ∷ codes "excessive risk"
      ∷ []
unfolding expand_query new_query_processor
expanded = refl

-- The key of two words never stands among the words of a query.
current_account : expand_query (processor []) (codes "current account") ≡ []
unfolding expand_query new_query_processor
current_account = refl

-- A query that two intents match gets the one that the range over the map meets first.
abbrev always : QueryIntent → QueryIntent × List (Text → Bool)
always intent = (intent, (λ s. true) ∷ [])

two_intents :
    (classify_intent (processor (always intent_factual ∷ always intent_latest ∷ [])) (codes "q")
      ≡ intent_factual)
    × (classify_intent (processor (always intent_latest ∷ always intent_factual ∷ [])) (codes "q")
        ≡ intent_latest)
unfolding classify_intent new_query_processor
two_intents = (refl, refl)

suggested :
    (suggest_filters
      (processor [])
      (extract_entities (processor []) (codes "zakat in bahrain"))
      (codes "zakat in bahrain")).source_type
    ≡ codes "aaoifi"
unfolding suggest_filters extract_entities new_query_processor
suggested = refl

expand_query-IsUnrepeated_example :
    IsUnrepeated (expand_query (processor []) (codes "riba riba gharar"))
    × (any (text_eq (codes "usury")) (expand_query (processor []) (codes "riba riba gharar"))
        ≡ any (is_synonym (processor []) (codes "usury")) (fields (codes "riba riba gharar")))
expand_query-IsUnrepeated_example =
    expand_query-IsUnrepeated (processor []) (codes "riba riba gharar") (codes "usury")
