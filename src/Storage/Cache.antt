-- ===== src/Storage/Cache.antt =====
-- internal/storage/cache.go: the cache manager over the interface `RedisClient`. A float32 is its 32
-- bits; SHA-256 and the codecs of JSON are parameters; times to live and log lines are left out.
pub mod RoundTrip
pub mod Tests
use syara_ai.Base.{
  ℕ, zero, suc, ◌+◌, ◌-◌, ◌*◌, ◌/◌, ◌≤◌, ◌<◌, ◌≡◌, ◌≢◌, ◌⊎◌, inl, inr, refl, sym, ap, ◌∙◌, subst,
  Bool, true, false, ◌&&◌, ◌||◌, not, Option, none, some, List, [], ◌∷◌, ◌++◌, map, ◌==◌, ltb, leb,
  if◌then◌else◌, Bool-cases, Option-cases, length, take, drop, get_elem?, All, Text, codes, text_eq,
  text_eq_iff, text_equality, arith, Dict, lookup, insert, append_assoc, append-nil,
}
use syara_ai.Base.{decimal, ◌%◌, ◌^◌}

pub data Reply (A : Type 0) : Type 0 where
  refused : Text → Reply A
  replied : A → Reply A

-- `get` refuses a missing key, too.
pub record RedisClient (W : Type 0) : Type 0 where
  pub get : Text → W → Reply Text × W
  pub set : Text → Text → W → Option Text × W
  pub del : List Text → W → Option Text × W
  pub keys : Text → W → Reply (List Text) × W
  pub ping : W → Option Text × W

pub record CacheConfig : Type 0 where
  pub prefix : Text
  pub enable_metrics : Bool
  pub graceful_degradation : Bool

abbrev pub default_cache_config : CacheConfig
default_cache_config = record {
  prefix = codes "rag";
  enable_metrics = true;
  graceful_degradation = true;
}

pub record CacheMetrics : Type 0 where
  pub embedding_hits : ℕ
  pub embedding_misses : ℕ
  pub retrieval_hits : ℕ
  pub retrieval_misses : ℕ
  pub document_hits : ℕ
  pub document_misses : ℕ
  pub errors : ℕ

pub record CacheManager : Type 0 where
  pub config : CacheConfig
  pub metrics : CacheMetrics
  pub healthy : Bool

-- What a lookup gives: nothing, an error, or a value.
pub data Lookup (A : Type 0) : Type 0 where
  miss : Lookup A
  broken : Text → Lookup A
  hit : A → Lookup A

-- `atomic.AddUint64(&n, 1)`.
abbrev pub count_one : ℕ → ℕ
count_one n = (n + 1) % 2 ^ 64

-- A manager with a client, after its ping.
unfoldable pub new_cache_manager : {W : Type 0} → RedisClient W → CacheConfig → W → CacheManager × W
new_cache_manager client config w =
    let (error, w') = client.ping w in
    (
      record {
        config = config;
        metrics = record {
          embedding_hits = 0;
          embedding_misses = 0;
          retrieval_hits = 0;
          retrieval_misses = 0;
          document_hits = 0;
          document_misses = 0;
          errors = 0;
        };
        healthy = elim error [ none ↦ true | some e ↦ false ];
      },
      w',
    )

abbrev pub note_error : CacheManager → CacheManager
note_error cm = record cm { metrics = record (cm.metrics) { errors = count_one cm.metrics.errors } }

-- A metric is counted where metrics are enabled.
abbrev pub count_if_enabled : (CacheMetrics → CacheMetrics) → CacheManager → CacheManager
count_if_enabled f cm =
    if cm.config.enable_metrics then record cm { metrics = f cm.metrics } else cm

abbrev pub embedding_missed : CacheMetrics → CacheMetrics
embedding_missed m = record m { embedding_misses = count_one m.embedding_misses }

abbrev pub embedding_found : CacheMetrics → CacheMetrics
embedding_found m = record m { embedding_hits = count_one m.embedding_hits }

-- The four bytes of `PutUint32`, the lowest first.
unfoldable pub encode_embedding : List ℕ → Text
encode_embedding [] = []
encode_embedding (v ∷ embedding) =
    v % 256 ∷ v / 256 % 256 ∷ v / 65536 % 256 ∷ v / 16777216 % 256 ∷ encode_embedding embedding

decode_words : Text → List ℕ
decode_words (a ∷ b ∷ c ∷ d ∷ bytes) = (a + 256 * b + 65536 * c + 16777216 * d) ∷ decode_words bytes
decode_words _ = []

unfoldable pub decode_embedding : Text → Reply (List ℕ)
unfolding decode_words decimal
decode_embedding bytes =
    if length bytes % 4 == 0
    then replied (decode_words bytes)
    else refused (codes "invalid embedding data length: " ++ decimal (length bytes))

module _ {W : Type 0} (client : RedisClient W) where
  -- The three lookups: `missed` and `found` count, and an undecodable value is an error.
  unfoldable pub get_cached :
      {A : Type 0}
      → (Text → Reply A)
      → (CacheMetrics → CacheMetrics)
      → (CacheMetrics → CacheMetrics)
      → Text
      → CacheManager
      → W
      → Lookup A × CacheManager × W
  get_cached decode missed found key cm w = elim cm.healthy [
    | false ↦ (miss, cm, w)
    | true ↦
        let (reply, w') = client.get key w in
        elim reply [
          | refused e ↦ (miss, count_if_enabled missed cm, w')
          | replied bytes ↦ elim (decode bytes) [
            | refused e ↦ (broken e, note_error cm, w')
            | replied value ↦ (hit value, count_if_enabled found cm, w')
          ]
        ]
  ]

  -- The three stores: a refusal counts as an error, which is returned unless the cache degrades
  -- gracefully.
  unfoldable pub store_cached : Text → Text → CacheManager → W → Option Text × CacheManager × W
  store_cached key bytes cm w = elim cm.healthy [
    | false ↦ (none, cm, w)
    | true ↦
        let (error, w') = client.set key bytes w in
        elim error [
          | none ↦ (none, cm, w')
          | some e ↦ (if cm.config.graceful_degradation then none else some e, note_error cm, w')
        ]
  ]

  -- All keys of a pattern are deleted; `swallow` says whether errors are only logged.
  unfoldable pub delete_pattern : Bool → Text → W → Option Text × W
  delete_pattern swallow pattern w =
      let (reply, w') = client.keys pattern w in
      elim reply [
        | refused e ↦ (if swallow then none else some e, w')
        | replied [] ↦ (none, w')
        | replied (k ∷ keys) ↦
            let (error, w'') = client.del (k ∷ keys) w' in (if swallow then none else error, w'')
      ]

  unfoldable pub retrieval_pattern : CacheManager → Text
  retrieval_pattern cm = cm.config.prefix ++ codes ":retrieve:*"

  unfoldable pub document_key : CacheManager → Text → Text
  document_key cm document_id = cm.config.prefix ++ codes ":doc:" ++ document_id

  unfoldable pub retrieval_key : CacheManager → Text → Text
  retrieval_key cm key = cm.config.prefix ++ codes ":retrieve:" ++ key

  unfoldable pub invalidate_by_document : Text → CacheManager → W → Option Text × W
  unfolding delete_pattern document_key retrieval_pattern
  invalidate_by_document document_id cm w = elim cm.healthy [
    | false ↦ (none, w)
    | true ↦
        let (error, w') = client.del (document_key cm document_id ∷ []) w in
        delete_pattern true (retrieval_pattern cm) w'
  ]

  unfoldable pub invalidate_by_source : Text → CacheManager → W → Option Text × W
  unfolding delete_pattern retrieval_pattern
  invalidate_by_source source_type cm w = elim cm.healthy [
    | false ↦ (none, w)
    | true ↦ delete_pattern true (retrieval_pattern cm) w
  ]

  unfoldable pub invalidate_all : CacheManager → W → Option Text × W
  unfolding delete_pattern
  invalidate_all cm w = elim cm.healthy [
    | false ↦ (none, w)
    | true ↦ delete_pattern false (cm.config.prefix ++ codes ":*") w
  ]

  module _ (hash_query : Text → Text) where
    unfoldable pub embedding_key : CacheManager → Text → Text
    embedding_key cm query = cm.config.prefix ++ codes ":embed:" ++ hash_query query

    unfoldable pub build_retrieval_key : Text → Text → ℕ → Text
    unfolding decimal
    build_retrieval_key query source_type top_k =
        hash_query query ++ codes ":" ++ source_type ++ codes ":" ++ decimal top_k

    unfoldable pub get_embedding : Text → CacheManager → W → Lookup (List ℕ) × CacheManager × W
    unfolding get_cached decode_embedding embedding_key
    get_embedding query cm w =
        get_cached decode_embedding embedding_missed embedding_found (embedding_key cm query) cm w

    unfoldable pub set_embedding : Text → List ℕ → CacheManager → W → Option Text × CacheManager × W
    unfolding store_cached encode_embedding embedding_key
    set_embedding query embedding cm w =
        store_cached (embedding_key cm query) (encode_embedding embedding) cm w

  module _ {A : Type 0} (marshal : A → Reply Text) (unmarshal : Text → Reply A) where
    unfoldable pub get_retrieval : Text → CacheManager → W → Lookup A × CacheManager × W
    unfolding get_cached retrieval_key
    get_retrieval key cm w =
        get_cached unmarshal (λ m. record m { retrieval_misses = count_one m.retrieval_misses })
          (λ m. record m { retrieval_hits = count_one m.retrieval_hits }) (retrieval_key cm key) cm
          w

    -- A value that has no JSON is an error, which no metric counts.
    unfoldable pub set_marshalled : Text → A → CacheManager → W → Option Text × CacheManager × W
    unfolding store_cached
    set_marshalled key value cm w = elim cm.healthy [
      | false ↦ (none, cm, w)
      | true ↦ elim (marshal value) [
        | refused e ↦ (some e, cm, w)
        | replied bytes ↦ store_cached key bytes cm w
      ]
    ]

    unfoldable pub set_retrieval : Text → A → CacheManager → W → Option Text × CacheManager × W
    unfolding set_marshalled retrieval_key
    set_retrieval key value cm w = set_marshalled (retrieval_key cm key) value cm w

    unfoldable pub get_document_metadata : Text → CacheManager → W → Lookup A × CacheManager × W
    unfolding get_cached document_key
    get_document_metadata document_id cm w =
        get_cached unmarshal (λ m. record m { document_misses = count_one m.document_misses })
          (λ m. record m { document_hits = count_one m.document_hits })
          (document_key cm document_id) cm w

    -- `none` is no document.
    unfoldable pub set_document_metadata :
        (A → Text) → Option A → CacheManager → W → Option Text × CacheManager × W
    unfolding set_marshalled document_key
    set_document_metadata id_of none cm w = (none, cm, w)
    set_document_metadata id_of (some doc) cm w =
        set_marshalled (document_key cm (id_of doc)) doc cm w
