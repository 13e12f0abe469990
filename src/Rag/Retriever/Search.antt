-- ===== src/Rag/Retriever/Search.antt =====
-- internal/rag/retriever.go: the searches around the fusion. The vector store, the embedder and the
-- cache are records of calls; `E` is the type of embeddings. Times and log lines are left out.
use syara_ai.Base.{
  ℕ, ◌+◌, ◌-◌, ◌*◌, Bool, true, false, Option, none, some, List, [], ◌∷◌, leb, if◌then◌else◌, Text,
  text_eq, text_equality,
}
use syara_ai.Base.{ℤ, is_nonpos, pos_part}
use syara_ai.Rag.Chunk.{Float, RetrievedChunk}
use syara_ai.Rag.Retriever.{reciprocal_rank_fusion}

pub data SearchType : Type 0 where
  semantic : SearchType
  keyword : SearchType
  hybrid : SearchType

-- A range of dates is a text, as the store gets it.
pub record RetrievalOptions (F : Type 0) : Type 0 where
  pub top_k : ℤ
  pub min_score : F
  pub search_type : Option SearchType
  pub source_type : Text
  pub categories : List Text
  pub standard_number : Text
  pub date_range : Text
  pub document_ids : List Text

pub record RetrieverConfig (F : Type 0) : Type 0 where
  pub default_top_k : ℕ
  pub default_min_score : F
  pub enable_hybrid_search : Bool
  pub cache_enabled : Bool

pub record SearchFilters : Type 0 where
  pub source_type : Text
  pub categories : List Text
  pub standard_number : Text
  pub date_range : Text
  pub document_ids : List Text

pub record SearchQuery (E F : Type 0) : Type 0 where
  pub embedding : E
  pub top_k : ℕ
  pub min_score : F
  pub filters : SearchFilters

pub record KeywordSearchOptions : Type 0 where
  pub top_k : ℕ
  pub source_type : Text
  pub categories : List Text

-- The calls; `none` is an error, of `embed` also where no embedder is configured, and of `cached` also
-- a miss. `get_by_id` gives `some none` for an unknown chunk.
pub record Backend (E F W : Type 0) : Type 0 where
  pub search : SearchQuery E F → W → Option (List (RetrievedChunk F)) × W
  pub keyword_search : Text → KeywordSearchOptions → W → Option (List (RetrievedChunk F)) × W
  pub embed : Text → W → Option E × W
  pub get_by_id : Text → W → Option (Option (RetrievedChunk F)) × W
  pub cached : Text → W → Option E × W
  pub cache : Text → E → W → W

pub record RetrievalResult (F : Type 0) : Type 0 where
  pub chunks : List (RetrievedChunk F)
  pub query : Text
  pub search_type : SearchType
  pub cache_hit : Bool

abbrev filters_of : {F : Type 0} → RetrievalOptions F → SearchFilters
filters_of opts = record {
  source_type = opts.source_type;
  categories = opts.categories;
  standard_number = opts.standard_number;
  date_range = opts.date_range;
  document_ids = opts.document_ids;
}

-- The chunks of a search, none after an error.
abbrev chunks_or_none : {F : Type 0} → Option (List (RetrievedChunk F)) → List (RetrievedChunk F)
chunks_or_none none = []
chunks_or_none (some chunks) = chunks

-- `zero_f` is 0 and `four_fifths` the product with 0.8.
module _ {E F W : Type 0} (float : Float F) (zero_f : F) (four_fifths : F → F)
    (config : RetrieverConfig F) (backend : Backend E F W) where
  -- Of the options with their defaults.
  abbrev top_k_of : RetrievalOptions F → ℕ
  top_k_of opts = if is_nonpos opts.top_k then config.default_top_k else pos_part opts.top_k

  abbrev min_score_of : RetrievalOptions F → F
  min_score_of opts =
      if float.at_least zero_f opts.min_score then config.default_min_score else opts.min_score

  abbrev search_type_of : RetrievalOptions F → SearchType
  search_type_of opts = elim opts.search_type [
    | some t ↦ t
    | none ↦ if config.enable_hybrid_search then hybrid else semantic
  ]

  -- The embedding, and whether the cache had it.
  unfoldable pub get_query_embedding : Text → W → (Option E × Bool) × W
  get_query_embedding query w =
      let (found, w1) : Option E × W =
        if config.cache_enabled then backend.cached query w else (none, w) in
      elim found [
        | some embedding ↦ ((some embedding, true), w1)
        | none ↦
            let (generated, w2) = backend.embed query w1 in
            elim generated [
              | none ↦ ((none, false), w2)
              | some embedding ↦ (
                (some embedding, false),
                if config.cache_enabled then backend.cache query embedding w2 else w2,
              )
            ]
      ]

  -- Each search gives its chunks and whether the embedding was cached.
  unfoldable pub semantic_search :
      Text → RetrievalOptions F → W → (List (RetrievedChunk F) × Bool) × W
  unfolding get_query_embedding
  semantic_search query opts w =
      let ((embedding, cache_hit), w1) = get_query_embedding query w in
      elim embedding [
        | none ↦ (([], cache_hit), w1)
        | some e ↦
            let (chunks, w2) =
              backend.search
                (record {
                  embedding = e;
                  top_k = top_k_of opts;
                  min_score = min_score_of opts;
                  filters = filters_of opts;
                })
                w1 in
            ((chunks_or_none chunks, cache_hit), w2)
      ]

  abbrev keyword_options : ℕ → RetrievalOptions F → KeywordSearchOptions
  keyword_options top_k opts = record {
    top_k = top_k;
    source_type = opts.source_type;
    categories = opts.categories;
  }

  unfoldable pub keyword_search :
      Text → RetrievalOptions F → W → (List (RetrievedChunk F) × Bool) × W
  keyword_search query opts w =
      let (chunks, w1) = backend.keyword_search query (keyword_options (top_k_of opts) opts) w in
      ((chunks_or_none chunks, false), w1)

  module _ (semantic_share keyword_share : ℕ → F) (scale : F → F) (add : F → F → F) where
    unfoldable pub hybrid_search :
        Text → RetrievalOptions F → W → (List (RetrievedChunk F) × Bool) × W
    unfolding get_query_embedding keyword_search reciprocal_rank_fusion
    hybrid_search query opts w =
        let ((embedding, cache_hit), w1) = get_query_embedding query w in
        elim embedding [
          | none ↦ keyword_search query opts w1
          | some e ↦
              let (semantic_chunks, w2) =
                backend.search
                  (record {
                    embedding = e;
                    top_k = top_k_of opts * 2;
                    min_score = four_fifths (min_score_of opts);
                    filters = filters_of opts;
                  })
                  w1 in
              let (keyword_chunks, w3) =
                backend.keyword_search query (keyword_options (top_k_of opts * 2) opts) w2 in
              (
                (
                  reciprocal_rank_fusion float add semantic_share keyword_share scale
                      (chunks_or_none semantic_chunks) (chunks_or_none keyword_chunks)
                      (top_k_of opts),
                  cache_hit,
                ),
                w3,
              )
        ]

    -- No retrieval fails.
    unfoldable pub retrieve : Text → RetrievalOptions F → W → RetrievalResult F × W
    unfolding semantic_search keyword_search hybrid_search
    retrieve query opts w =
        let ((chunks, cache_hit), w') : (List (RetrievedChunk F) × Bool) × W =
          elim (search_type_of opts) [
            | semantic ↦ semantic_search query opts w
            | keyword ↦ keyword_search query opts w
            | hybrid ↦ hybrid_search query opts w
          ] in
        (
          record {
            chunks = chunks;
            query = query;
            search_type = search_type_of opts;
            cache_hit = cache_hit;
          },
          w',
        )

  -- The other chunks, until there are `top_k`; the loop tests this after it appends one.
  unfoldable pub without_source : Text → ℕ → List (RetrievedChunk F) → List (RetrievedChunk F)
  without_source chunk_id top_k [] = []
  without_source chunk_id top_k (c ∷ chunks) =
      let skipped = without_source chunk_id top_k chunks in
      let others = without_source chunk_id (top_k - 1) chunks in
      if text_eq c.id chunk_id then skipped else c ∷ (if leb top_k 1 then [] else others)

  -- `none` is the error of the search.
  unfoldable pub retrieve_with_embedding :
      E → RetrievalOptions F → W → Option (List (RetrievedChunk F)) × W
  retrieve_with_embedding embedding opts w =
      backend.search
        (record {
          embedding = embedding;
          top_k = top_k_of opts;
          min_score = min_score_of opts;
          filters = filters_of opts;
        })
        w

  -- The chunks most like a chunk, by its content; `half` is 0.5.
  unfoldable pub retrieve_similar : F → Text → ℕ → W → Option (List (RetrievedChunk F)) × W
  unfolding get_query_embedding without_source
  retrieve_similar half chunk_id top_k w =
      let (found, w1) = backend.get_by_id chunk_id w in
      elim found [
        | none ↦ (none, w1)
        | some none ↦ (some [], w1)
        | some (some chunk) ↦
            let ((embedding, cache_hit), w2) = get_query_embedding chunk.content w1 in
            elim embedding [
              | none ↦ (some [], w2)
              | some e ↦
                  let (chunks, w3) =
                    backend.search
                      (record {
                        embedding = e;
                        top_k = top_k + 1;
                        min_score = half;
                        filters = record {
                          source_type = [];
                          categories = [];
                          standard_number = [];
                          date_range = [];
                          document_ids = [];
                        };
                      })
                      w2 in
                  elim chunks [
                    | none ↦ (none, w3)
                    | some cs ↦ (some (without_source chunk_id top_k cs), w3)
                  ]
            ]
      ]
