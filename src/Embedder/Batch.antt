-- ===== src/Embedder/Batch.antt =====
-- internal/embedder/embedder.go: `OpenAIEmbedder`. The embedding service, the limiter and the timer
-- act on the world `W`; log lines, latencies and the cost are left out.
pub mod Filled
pub mod Retry
pub mod Right
use syara_ai.Base.{
  ℕ, zero, suc, ◌+◌, ◌-◌, ◌*◌, Bool, true, false, Option, none, some, List, [], ◌∷◌, map, ◌==◌,
  if◌then◌else◌, length, take, drop, Text, codes, text_eq,
}
use syara_ai.Embedder.Cache.{EmbeddingCache, new_cache, get, set}

pub record EmbedderConfig : Type 0 where
  pub api_key : Text
  pub model : Text
  pub max_batch_size : ℕ
  pub max_retries : ℕ
  pub retry_delay : ℕ
  pub enable_cache : Bool
  pub cache_size : ℕ

pub record EmbedderStats : Type 0 where
  pub total_requests : ℕ
  pub total_tokens : ℕ
  pub total_texts : ℕ
  pub cache_hits : ℕ
  pub cache_misses : ℕ
  pub errors : ℕ

pub record OpenAiEmbedder (V : Type 0) : Type 0 where
  pub config : EmbedderConfig
  pub cache : Option (EmbeddingCache V)
  pub stats : EmbedderStats

-- In milliseconds.
abbrev pub default_embedder_config : Text → EmbedderConfig
default_embedder_config api_key = record {
  api_key = api_key;
  model = codes "text-embedding-3-small";
  max_batch_size = 100;
  max_retries = 3;
  retry_delay = 1000;
  enable_cache = true;
  cache_size = 10000;
}

abbrev pub no_stats : EmbedderStats
no_stats = record {
  total_requests = 0;
  total_tokens = 0;
  total_texts = 0;
  cache_hits = 0;
  cache_misses = 0;
  errors = 0;
}

-- `none` where the key is missing.
unfoldable pub new_open_ai_embedder : {V : Type 0} → EmbedderConfig → Option (OpenAiEmbedder V)
new_open_ai_embedder config =
    if text_eq config.api_key []
    then none
    else some (record {
      config = config;
      cache = if config.enable_cache then some (new_cache config.cache_size) else none;
      stats = no_stats;
    })

unfoldable pub dimension : {V : Type 0} → OpenAiEmbedder V → ℕ
dimension e = if text_eq e.config.model (codes "text-embedding-3-large") then 3072 else 1536

abbrev pub reset_stats : {V : Type 0} → OpenAiEmbedder V → OpenAiEmbedder V
reset_stats e = record e { stats = no_stats }

abbrev pub update_stats : ℕ → ℕ → EmbedderStats → EmbedderStats
update_stats text_count tokens s = record s {
  total_requests = s.total_requests + 1;
  total_tokens = s.total_tokens + tokens;
  total_texts = s.total_texts + text_count;
}

pub data EmbedError : Type 0 where
  api_error cancelled limiter_error : Text → EmbedError
  unexpected_response : ℕ → ℕ → EmbedError
  all_retries_failed batch_failed : EmbedError → EmbedError
  no_embedding : EmbedError

-- What the service answers: its error, or the embeddings and the tokens used.
pub data Answer (V : Type 0) : Type 0 where
  refused : Text → Answer V
  answered : List V → ℕ → Answer V

pub data Embedded (V : Type 0) : Type 0 where
  failed : EmbedError → Embedded V
  embedded : List V → ℕ → Embedded V

-- What `EmbedBatch` returns; `endless` stands for a loop that does not end.
pub data Outcome (V : Type 0) : Type 0 where
  endless : Outcome V
  stopped : EmbedError → Outcome V
  done : List (Option V) → Outcome V

-- The loop over the texts of `EmbedBatch` from text `i`: the results so far, and the texts that are
-- not in the cache, each with its index.
unfoldable pub split_cached :
    {V : Type 0} → (Text → Option V) → List Text → ℕ → List (Option V) × List (Text × ℕ)
split_cached find [] i = ([], [])
split_cached find (text ∷ texts) i =
    let rest = split_cached find texts (suc i) in
    elim (find text) [
      | some embedding ↦ (some embedding ∷ rest.0, rest.1)
      | none ↦ (none ∷ rest.0, (text, i) ∷ rest.1)
    ]

-- `results[i] = emb`; an index out of range does not occur.
abbrev pub set_at : {V : Type 0} → List (Option V) → ℕ → V → List (Option V)
set_at [] i v = []
set_at (r ∷ rs) zero v = some v ∷ rs
set_at (r ∷ rs) (suc i) v = r ∷ set_at rs i v

-- What the cache finds; without a cache nothing.
abbrev pub find : {V : Type 0} → (Text → Text) → Option (EmbeddingCache V) → Text → Option V
find hash_text none text = none
find hash_text (some c) text = get hash_text c text

-- Hits and misses are counted where there is a cache.
abbrev count_lookups : {V : Type 0} → OpenAiEmbedder V → ℕ → ℕ → OpenAiEmbedder V
count_lookups e hits misses = elim e.cache [
  | none ↦ e
  | some c ↦ record e {
    stats = record (e.stats) {
      cache_hits = e.stats.cache_hits + hits;
      cache_misses = e.stats.cache_misses + misses;
    };
  }
]

module _ {V W : Type 0} (create_embeddings : Text → List Text → W → Answer V × W) where
  unfoldable pub do_embed_batch : Text → List Text → W → Embedded V × W
  do_embed_batch model texts w =
      let (answer, w') = create_embeddings model texts w in
      elim answer [
        | refused e ↦ (failed (api_error e), w')
        | answered embeddings tokens ↦
            if length embeddings == length texts
            then (embedded embeddings tokens, w')
            else (failed (unexpected_response (length embeddings) (length texts)), w')
      ]

  module _ (wait : W → Option Text × W) (sleep : ℕ → W → Option Text × W) where
    -- One attempt behind the limiter, and `retry` where it fails.
    abbrev attempt : Text → List Text → (EmbedError → W → Embedded V × W) → W → Embedded V × W
    attempt model texts retry w =
        let (limited, w') = wait w in
        elim limited [
          | some e ↦ (failed (limiter_error e), w')
          | none ↦
              let (result, w'') = do_embed_batch model texts w' in
              elim result [
                | embedded embeddings tokens ↦ (embedded embeddings tokens, w'')
                | failed e ↦ retry e w''
              ]
        ]

    -- The loop after a failed attempt, with the attempts left.
    unfoldable pub retry_from : Text → List Text → ℕ → ℕ → EmbedError → W → Embedded V × W
    retry_from model texts zero delay last_err w = (failed (all_retries_failed last_err), w)
    retry_from model texts (suc left) delay last_err w =
        let (ended, w') = sleep delay w in
        elim ended [
          | some e ↦ (failed (cancelled e), w')
          | none ↦ attempt model texts (retry_from model texts left (delay * 2)) w'
        ]

    unfoldable pub embed_batch_with_retry : EmbedderConfig → List Text → W → Embedded V × W
    unfolding do_embed_batch retry_from
    embed_batch_with_retry config texts w =
        attempt config.model texts
          (retry_from config.model texts config.max_retries config.retry_delay) w

module _ {V W : Type 0} (hash_text : Text → Text) (now : W → ℕ × W) where
  -- A cache that is not there stays away.
  abbrev set_cached : Option (EmbeddingCache V) → Text → V → W → Option (EmbeddingCache V) × W
  set_cached none text embedding w = (none, w)
  set_cached (some c) text embedding w =
      let (time, w') = now w in (some (set hash_text c text embedding time), w')

  -- The loop that stores the embeddings of a batch, which has as many texts.
  unfoldable pub store :
      List (Text × ℕ)
      → List V
      → List (Option V)
      → Option (EmbeddingCache V)
      → W
      → List (Option V) × Option (EmbeddingCache V) × W
  store [] embeddings results cache w = (results, cache, w)
  store (p ∷ batch) [] results cache w = (results, cache, w)
  store ((text, i) ∷ batch) (embedding ∷ embeddings) results cache w =
      let (cache', w') = set_cached cache text embedding w in
      store batch embeddings (set_at results i embedding) cache' w'

  module _ (create_embeddings : Text → List Text → W → Answer V × W) (wait : W → Option Text × W)
      (sleep : ℕ → W → Option Text × W) where
    -- The loop over the batches, by fuel: the texts left.
    unfoldable pub batches :
        ℕ
        → List (Text × ℕ)
        → List (Option V)
        → OpenAiEmbedder V
        → W
        → Outcome V × OpenAiEmbedder V × W
    batches fuel [] results e w = (done results, e, w)
    batches zero (p ∷ pending) results e w = (endless, e, w)
    batches (suc fuel) (p ∷ pending) results e w =
        let batch = take e.config.max_batch_size (p ∷ pending) in
        let texts = map (λ q. q.0) batch in
        let (result, w') = embed_batch_with_retry create_embeddings wait sleep e.config texts w in
        elim result [
          | failed err ↦ (
            stopped (batch_failed err),
            record e { stats = record (e.stats) { errors = e.stats.errors + 1 } },
            w',
          )
          | embedded embeddings tokens ↦
              let (results', cache, w'') = store batch embeddings results e.cache w' in
              batches fuel (drop e.config.max_batch_size (p ∷ pending)) results'
                (record e { cache = cache; stats = update_stats (length texts) tokens e.stats }) w''
        ]

    -- As many rounds are given as texts are to be embedded.
    unfoldable pub embed_batch : OpenAiEmbedder V → List Text → W → Outcome V × OpenAiEmbedder V × W
    unfolding get split_cached batches
    embed_batch e [] w = (done [], e, w)
    embed_batch e (text ∷ texts) w =
        let (results, pending) = split_cached (find hash_text e.cache) (text ∷ texts) 0 in
        let misses = length pending in
        batches misses pending results (count_lookups e (length (text ∷ texts) - misses) misses) w

    -- `Embed`, with its result as a list of one.
    unfoldable pub embed : OpenAiEmbedder V → Text → W → Outcome V × OpenAiEmbedder V × W
    unfolding embed_batch
    embed e text w =
        let (outcome, e', w') = embed_batch e (text ∷ []) w in
        elim outcome [
          | done [] ↦ (stopped no_embedding, e', w')
          | done (r ∷ rs) ↦ (done (r ∷ []), e', w')
          | stopped err ↦ (stopped err, e', w')
          | endless ↦ (endless, e', w')
        ]
