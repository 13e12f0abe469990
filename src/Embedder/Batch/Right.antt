-- ===== src/Embedder/Batch/Right.antt =====
-- internal/embedder/embedder.go: what `EmbedBatch` returns, for a service that answers with the
-- embedding of each text, and hashes that do not collide.
use syara_ai.Base.{
  text_equality, ltb, ℕ, zero, suc, ◌≡◌, refl, ap, sym, ◌∙◌, inl, inr, Option, none, some, List, [],
  ◌∷◌, map, Text, Option-cases, take, drop, arith, All, Dict, lookup, insert-All, lookup-All,
  Bool-cases, leb, length, ◌&&◌, remove-All, ◌≤◌, ◌<◌, subst, length-drop, take-append-drop,
}
use syara_ai.Embedder.Cache.{CacheEntry, EmbeddingCache, evict, get, set}
use syara_ai.Embedder.Batch.{
  EmbedderConfig, OpenAiEmbedder, Answer, answered, Outcome, endless, stopped, done, set_cached,
  set_at, store, embed_batch_with_retry, batches, update_stats, embed_batch, find, split_cached,
  EmbedderStats,
}
use syara_ai.Embedder.Batch.Retry.{Embedded-cases, IsAnswer, embed_batch_with_retry-AnswersIn}
use syara_ai.Embedder.Batch.Filled.{filled, filled-append, filled-split_cached}

module _ {V : Type 0} (hash_text : Text → Text) (meaning : Text → V) where
  -- The entry under the hash of a text holds the embedding of the text.
  abbrev pub IsEntry : Text × CacheEntry V → Type 0
  IsEntry (key, entry) = (text : Text) → hash_text text ≡ key → entry.embedding ≡ meaning text

  abbrev pub IsRight : Option (EmbeddingCache V) → Type 0
  IsRight none = Unit
  IsRight (some c) = All IsEntry c.entries

  get_meaning :
      (c : EmbeddingCache V) (text : Text) (v : V)
      → IsRight (some c)
      → get hash_text c text ≡ some v
      → v ≡ meaning text
  unfolding get
  get_meaning c text v h e = elim (Option-cases (lookup (hash_text text) c.entries)) [
    | inl absent ↦ let e' : none ≡ some v = sym (rw (absent, get) refl) ∙ e in cc
    | inr (entry, found) ↦
        let right = lookup-All IsEntry (hash_text text) entry c.entries found h text refl in
        ground (arith, right)
  ]

  evict-All :
      (entries : Dict Text (CacheEntry V)) (order : List Text) (max_size : ℕ)
      → All IsEntry entries
      → All IsEntry
          (evict (record { entries = entries; order = order; max_size = max_size })).entries
  evict-All entries [] max_size h =
      elim (Bool-cases (leb max_size (length entries) && ltb 0 max_size)) [
        | inl full ↦ rw full h
        | inr room ↦ rw room h
      ]
  evict-All entries (k ∷ order) max_size h =
      elim (Bool-cases (leb max_size (length entries) && ltb 0 max_size)) [
        | inl full ↦ rw full (remove-All IsEntry k entries h)
        | inr room ↦ rw room h
      ]

  module _ (injective : (s t : Text) → hash_text s ≡ hash_text t → s ≡ t) where
    set-IsRight :
        (c : EmbeddingCache V) (text : Text) (now : ℕ)
        → IsRight (some c)
        → IsRight (some (set hash_text c text (meaning text) now))
    unfolding set
    set-IsRight c text now h = elim (Option-cases (lookup (hash_text text) c.entries)) [
      | inl absent ↦
          rw (absent, set)
            (insert-All IsEntry (hash_text text) _ _ (λ t e. ap meaning (sym (injective t text e)))
              (evict-All c.entries c.order c.max_size h))
      | inr (entry, found) ↦ rw (found, set) h
    ]

    module _ {W : Type 0} (now : W → ℕ × W) where
      set_cached-IsRight :
          (cache : Option (EmbeddingCache V)) (text : Text) (w : W)
          → IsRight cache
          → IsRight (set_cached hash_text now cache text (meaning text) w).0
      set_cached-IsRight none text w h = tt
      set_cached-IsRight (some c) text w h = set-IsRight c text (now w).0 h

      -- A batch's embeddings are stored at the indices of its texts.
      store-IsRight :
          (batch : List (Text × ℕ)) (results : List (Option V)) (cache : Option (EmbeddingCache V))
          (w : W)
          → IsRight cache
          → (embeddings : List V) → embeddings ≡ map meaning (map (λ p. p.0) batch)
          → let stored = store hash_text now batch embeddings results cache w in
            (stored.0 ≡ filled meaning batch results) × IsRight stored.1
      unfolding store filled
      store-IsRight [] results cache w h embeddings e = (refl, h)
      store-IsRight ((text, i) ∷ batch) results cache w h [] e = absurd (cc)
      store-IsRight ((text, i) ∷ batch) results cache w h (v ∷ embeddings) e =
          let same : v ≡ meaning text = cc in
          let (cache', w') = set_cached hash_text now cache text v w in
          let sound : IsRight cache' =
            subst (λ u. IsRight (set_cached hash_text now cache text u w).0) (sym same)
              (set_cached-IsRight cache text w h) in
          let rest = store-IsRight batch (set_at results i v) cache' w' sound embeddings (cc) in
          (rest.0 ∙ ap (λ u. filled meaning batch (set_at results i u)) same, rest.1)

  -- What is returned for the texts: an error, or the results `want`.
  abbrev pub Returns : List (Option V) → Outcome V → Type 0
  Returns want endless = ⊥
  Returns want (stopped e) = Unit
  Returns want (done results) = results ≡ want

  module _ (injective : (s t : Text) → hash_text s ≡ hash_text t → s ≡ t) {W : Type 0}
      (now : W → ℕ × W) (create_embeddings : Text → List Text → W → Answer V × W)
      (wait : W → Option Text × W) (sleep : ℕ → W → Option Text × W) (model : Text)
      (faithful : (texts : List Text) (w : W) (embeddings : List V) (tokens : ℕ)
        → (create_embeddings model texts w).0 ≡ answered embeddings tokens
        → length embeddings ≡ length texts
        → embeddings ≡ map meaning texts) where
    embed_batch_with_retry-IsAnswer :
        (config : EmbedderConfig) (texts : List Text) (w : W)
        → config.model ≡ model
        → IsAnswer meaning texts
            (embed_batch_with_retry create_embeddings wait sleep config texts w).0
    embed_batch_with_retry-IsAnswer config texts w same =
        (embed_batch_with_retry-AnswersIn create_embeddings wait sleep (λ _. 0)
          (λ m ts v. omega arith) (λ v. omega arith) (λ d v. omega arith) meaning model faithful
          texts config w same).0

    abbrev Sound : List (Option V) → Outcome V × OpenAiEmbedder V × W → Type 0
    Sound want r = Returns want r.0 × IsRight r.1.cache

    batches-Sound :
        (fuel : ℕ) (pending : List (Text × ℕ)) (results : List (Option V)) (e : OpenAiEmbedder V)
        (w : W)
        → length pending ≤ fuel
        → 0 < e.config.max_batch_size
        → e.config.model ≡ model
        → IsRight e.cache
        → Sound
            (filled meaning pending results)
            (batches hash_text now create_embeddings wait sleep fuel pending results e w)
    unfolding batches filled
    batches-Sound fuel [] results e w enough some_size same h = (refl, h)
    batches-Sound zero (p ∷ pending) results e w enough some_size same h = absurd (omega arith)
    batches-Sound (suc fuel) (p ∷ pending) results e w enough some_size same h =
        let size = e.config.max_batch_size in
        let batch = take size (p ∷ pending) in
        let texts = map (λ q. q.0) batch in
        let reply = embed_batch_with_retry create_embeddings wait sleep e.config texts w in
        elim (Embedded-cases reply.0) [
          | inl (err, failure) ↦ rw (failure, batches) (tt, h)
          | inr (es, tokens, answer) ↦
              let right : es ≡ map meaning texts =
                rw answer at (embed_batch_with_retry-IsAnswer e.config texts w same) in
              let stored = store-IsRight injective now batch results e.cache reply.1 h es right in
              let (results', cache, w') = store hash_text now batch es results e.cache reply.1 in
              let e' : OpenAiEmbedder V = record e {
                cache = cache;
                stats = update_stats (length texts) tokens e.stats;
              } in
              let later =
                batches-Sound fuel (drop size (p ∷ pending)) results' e' w'
                  (omega (arith, length-drop size (p ∷ pending))) some_size same stored.1 in
              let whole : filled meaning (drop size (p ∷ pending)) results'
                  ≡ filled meaning (p ∷ pending) results =
                ap (filled meaning (drop size (p ∷ pending))) stored.0
                ∙ sym (filled-append meaning batch (drop size (p ∷ pending)) results)
                ∙ ap (λ ps. filled meaning ps results) (take-append-drop size (p ∷ pending)) in
              rw (answer, batches)
                (subst
                  (λ want. Sound want (
                    batches hash_text now create_embeddings wait sleep fuel
                      (drop size (p ∷ pending)) results' e' w'))
                  whole later)
        ]

    find_meaning :
        (cache : Option (EmbeddingCache V)) (text : Text) (v : V)
        → IsRight cache
        → find hash_text cache text ≡ some v
        → v ≡ meaning text
    find_meaning none text v h e = absurd (cc)
    find_meaning (some c) text v h e = get_meaning c text v h e

    embed_split :
        (e e' : OpenAiEmbedder V) (texts : List Text) (w : W)
        → e'.config ≡ e.config
        → e'.cache ≡ e.cache
        → 0 < e.config.max_batch_size
        → e.config.model ≡ model
        → IsRight e.cache
        → let (results, pending) = split_cached (find hash_text e.cache) texts 0 in
          Sound (map (λ t. some (meaning t)) texts) (
            batches hash_text now create_embeddings wait sleep
              (length pending)
              pending
              results
              e'
              w)
    embed_split e e' texts w same_config same_cache some_size same h =
        let (results, pending) = split_cached (find hash_text e.cache) texts 0 in
        subst
          (λ want. Sound want (
            batches hash_text now create_embeddings wait sleep (length pending) pending results e'
              w))
          (filled-split_cached (find hash_text e.cache) meaning (λ t v. find_meaning e.cache t v h)
            texts)
          (batches-Sound (length pending) pending results e' w (omega arith)
            (subst (λ c. 0 < c.max_batch_size) (sym same_config) some_size)
            (subst (λ c. c.model ≡ model) (sym same_config) same)
            (subst IsRight (sym same_cache) h))

    embed_fields :
        (config : EmbedderConfig) (cache : Option (EmbeddingCache V)) (stats : EmbedderStats)
        (texts : List Text) (w : W)
        → 0 < config.max_batch_size
        → config.model ≡ model
        → IsRight cache
        → Sound (map (λ t. some (meaning t)) texts) (
            embed_batch hash_text now create_embeddings wait sleep
              (record { config = config; cache = cache; stats = stats })
              texts
              w)
    unfolding embed_batch
    embed_fields config cache stats [] w some_size same h = (refl, h)
    embed_fields config none stats (t ∷ texts) w some_size same h =
        embed_split (record { config = config; cache = none; stats = stats }) _ (t ∷ texts) w refl
          refl some_size same h
    embed_fields config (some c) stats (t ∷ texts) w some_size same h =
        embed_split (record { config = config; cache = some c; stats = stats }) _ (t ∷ texts) w refl
          refl some_size same h

    -- With batches of a size above 0, where a successful call of the service gives the embedding of
    -- each text, no two hashes collide and the cache holds right embeddings, `EmbedBatch` ends with
    -- an error or with the embedding of each text in the order of the texts, and leaves a cache of
    -- right embeddings in both cases.
    pub embed_batch-Sound :
        (e : OpenAiEmbedder V) (texts : List Text) (w : W)
        → 0 < e.config.max_batch_size
        → e.config.model ≡ model
        → IsRight e.cache
        → let (outcome, e', w') =
            embed_batch hash_text now create_embeddings wait sleep e texts w in
          Returns (map (λ t. some (meaning t)) texts) outcome × IsRight e'.cache
    embed_batch-Sound e texts w some_size same h =
        embed_fields e.config e.cache e.stats texts w some_size same h
