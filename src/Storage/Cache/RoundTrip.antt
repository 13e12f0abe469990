-- ===== src/Storage/Cache/RoundTrip.antt =====
-- internal/storage/cache.go: an embedding that was stored is read back.
use syara_ai.Base.{
  ℕ, ◌+◌, ◌*◌, ◌/◌, ◌<◌, ◌≡◌, refl, ap, true, none, List, [], ◌∷◌, ◌==◌, length, All, Text,
  text_equality, arith, ap₂,
}
use syara_ai.Base.{◌%◌, ap₂}
use syara_ai.Storage.Cache.{
  embedding_missed, embedding_found, Reply, replied, RedisClient, CacheManager, CacheMetrics, hit,
  count_if_enabled, encode_embedding, decode_words, decode_embedding, embedding_key, get_cached,
  store_cached, get_embedding, set_embedding, count_if_enabled,
}

word-bytes :
    (v : ℕ)
    → v < 4294967296
    → v % 256 + 256 * (v / 256 % 256) + 65536 * (v / 65536 % 256) + 16777216 * (v / 16777216 % 256)
      ≡ v
word-bytes v h = omega arith

decode_words-encode_embedding :
    (embedding : List ℕ)
    → All (λ v. v < 4294967296) embedding
    → decode_words (encode_embedding embedding) ≡ embedding
unfolding decode_words encode_embedding
decode_words-encode_embedding [] h = refl
decode_words-encode_embedding (v ∷ embedding) (p, h) =
    ap₂ ◌∷◌ (word-bytes v p) (decode_words-encode_embedding embedding h)

length-encode_embedding :
    (embedding : List ℕ) → length (encode_embedding embedding) ≡ 4 * length embedding
unfolding encode_embedding
length-encode_embedding [] = omega arith
length-encode_embedding (v ∷ embedding) = omega (arith, length-encode_embedding embedding)

decode_embedding-encode_embedding :
    (embedding : List ℕ)
    → All (λ v. v < 4294967296) embedding
    → decode_embedding (encode_embedding embedding) ≡ replied embedding
unfolding decode_embedding
decode_embedding-encode_embedding embedding h =
    let whole : (length (encode_embedding embedding) % 4 == 0) ≡ true =
      ground (arith, length-encode_embedding embedding) in
    rw (whole, decode_embedding) (ap replied (decode_words-encode_embedding embedding h))

store_cached-accepted :
    {W : Type 0} (client : RedisClient W) (key value : Text) (cm : CacheManager) (w : W)
    → cm.healthy ≡ true
    → (client.set key value w).0 ≡ none
    → store_cached client key value cm w ≡ (none, cm, (client.set key value w).1)
unfolding store_cached
store_cached-accepted client key value cm w healthy accepted =
    simp (healthy, store_cached, accepted)

get_cached-found :
    {W A : Type 0} (client : RedisClient W) (decode : Text → Reply A)
    (missed found : CacheMetrics → CacheMetrics) (key value : Text) (a : A) (cm : CacheManager)
    (w : W)
    → cm.healthy ≡ true
    → (client.get key w).0 ≡ replied value
    → decode value ≡ replied a
    → get_cached client decode missed found key cm w
      ≡ (hit a, count_if_enabled found cm, (client.get key w).1)
unfolding get_cached
get_cached-found client decode missed found key value a cm w healthy there decoded =
    simp (healthy, get_cached, there, decoded)

-- One hit more.
abbrev pub one_hit : CacheManager → CacheManager
one_hit = count_if_enabled embedding_found

module _ {W : Type 0} (client : RedisClient W) (hash_query : Text → Text) where
  set_embedding-accepted :
      (query : Text) (embedding : List ℕ) (cm : CacheManager) (w : W)
      → let key = embedding_key client hash_query cm query in
        let value = encode_embedding embedding in
        cm.healthy ≡ true
        → (client.set key value w).0 ≡ none
        → set_embedding client hash_query query embedding cm w
          ≡ (none, cm, (client.set key value w).1)
  unfolding set_embedding
  set_embedding-accepted query embedding cm w healthy accepted =
      store_cached-accepted client (embedding_key client hash_query cm query)
        (encode_embedding embedding) cm w healthy accepted

  get_embedding-found :
      (query : Text) (embedding : List ℕ) (cm : CacheManager) (w : W)
      → let key = embedding_key client hash_query cm query in
        All (λ v. v < 4294967296) embedding
        → cm.healthy ≡ true
        → (client.get key w).0 ≡ replied (encode_embedding embedding)
        → get_embedding client hash_query query cm w
          ≡ (hit embedding, one_hit cm, (client.get key w).1)
  unfolding get_embedding
  get_embedding-found query embedding cm w words healthy there =
      get_cached-found client decode_embedding embedding_missed embedding_found
        (embedding_key client hash_query cm query) (encode_embedding embedding) embedding cm w
        healthy there (decode_embedding-encode_embedding embedding words)

  -- In a store that gives back what it accepted, an embedding of 32-bit words that `SetEmbedding`
  -- stores is what `GetEmbedding` then finds for the query; the two leave the manager as it was but
  -- for one hit, where metrics are enabled.
  pub get_embedding-set_embedding :
      (query : Text) (embedding : List ℕ) (cm : CacheManager) (w : W)
      → All (λ v. v < 4294967296) embedding
      → cm.healthy ≡ true
      → ((key value : Text) (w : W)
          → (client.set key value w).0 ≡ none
          → (client.get key (client.set key value w).1).0 ≡ replied value)
      → (client.set (embedding_key client hash_query cm query) (encode_embedding embedding) w).0
        ≡ none
      → let (error, cm', w') = set_embedding client hash_query query embedding cm w in
        let (found, cm'', w'') = get_embedding client hash_query query cm' w' in
        (error ≡ none) × (found ≡ hit embedding) × (cm'' ≡ one_hit cm)
  get_embedding-set_embedding query embedding cm w words healthy keeps accepted =
      let key = embedding_key client hash_query cm query in
      let value = encode_embedding embedding in
      let there = keeps key value w accepted in
      rw (set_embedding-accepted query embedding cm w healthy accepted) (
        rw (get_embedding-found query embedding cm (client.set key value w).1 words healthy there)
          (refl, refl, refl))
