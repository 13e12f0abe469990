-- ===== src/Embedder/Batch/Retry.antt =====
-- internal/embedder/embedder.go: `embedBatchWithRetry`.
use syara_ai.Base.{
  ◌==◌, ◌*◌, ℕ, zero, suc, ◌+◌, ◌≤◌, ◌≡◌, refl, inl, inr, Option, List, map, Text, Option-cases,
  Bool-cases, length, arith, ◌⊎◌, ==_iff,
}
use syara_ai.Embedder.Batch.{
  EmbedderConfig, EmbedError, Answer, refused, answered, Embedded, failed, embedded, do_embed_batch,
  attempt, retry_from, embed_batch_with_retry,
}

Answer-cases :
    {V : Type 0} (a : Answer V)
    → ((e : Text) × (a ≡ refused e)) ⊎ ((es : List V) × (tokens : ℕ) × (a ≡ answered es tokens))
Answer-cases (refused e) = inl (e, refl)
Answer-cases (answered es tokens) = inr (es, tokens, refl)

pub Embedded-cases :
    {V : Type 0} (r : Embedded V)
    → ((e : EmbedError) × (r ≡ failed e))
      ⊎ ((es : List V) × (tokens : ℕ) × (r ≡ embedded es tokens))
Embedded-cases (failed e) = inl (e, refl)
Embedded-cases (embedded es tokens) = inr (es, tokens, refl)

-- What an answer to the texts is: none, or the embedding of each text.
abbrev pub IsAnswer : {V : Type 0} → (Text → V) → List Text → Embedded V → Type 0
IsAnswer meaning texts (failed e) = Unit
IsAnswer meaning texts (embedded embeddings tokens) = embeddings ≡ map meaning texts

module _ {V W : Type 0} (create_embeddings : Text → List Text → W → Answer V × W)
    (wait : W → Option Text × W) (sleep : ℕ → W → Option Text × W) (calls : W → ℕ)
    (create_counts : (model : Text) (texts : List Text) (w : W)
      → calls (create_embeddings model texts w).1 ≤ suc (calls w))
    (wait_keeps : (w : W) → calls (wait w).1 ≤ calls w)
    (sleep_keeps : (delay : ℕ) (w : W) → calls (sleep delay w).1 ≤ calls w) (meaning : Text → V)
    (model : Text)
    (faithful : (texts : List Text) (w : W) (embeddings : List V) (tokens : ℕ)
      → (create_embeddings model texts w).0 ≡ answered embeddings tokens
      → length embeddings ≡ length texts
      → embeddings ≡ map meaning texts)
    (texts : List Text) where
  -- A right answer after at most `n` calls of the service.
  abbrev AnswersIn : ℕ → W → Embedded V × W → Type 0
  AnswersIn n w r = IsAnswer meaning texts r.0 × (calls r.1 ≤ calls w + n)

  do_embed_batch-AnswersIn :
      (w : W) → AnswersIn 1 w (do_embed_batch create_embeddings model texts w)
  unfolding do_embed_batch
  do_embed_batch-AnswersIn w =
      let count = create_counts model texts w in
      elim (Answer-cases (create_embeddings model texts w).0) [
        | inl (e, refusal) ↦ rw (refusal, do_embed_batch) (tt, omega arith)
        | inr (es, tokens, answer) ↦ elim (Bool-cases (length es == length texts)) [
          | inl fits ↦
              rw (answer, do_embed_batch)
                (rw (fits, do_embed_batch)
                  (
                    faithful texts w es tokens answer ((==_iff (length es) (length texts)).0 fits),
                    omega arith,
                  ))
          | inr short ↦ rw (answer, do_embed_batch) (rw (short, do_embed_batch) (tt, omega arith))
        ]
      ]

  attempt-AnswersIn :
      (n : ℕ) (retry : EmbedError → W → Embedded V × W)
      → ((e : EmbedError) (w : W) → AnswersIn n w (retry e w))
      → (w : W) → AnswersIn (suc n) w (attempt create_embeddings wait sleep model texts retry w)
  attempt-AnswersIn n retry h w =
      let w' = (wait w).1 in
      let waited : calls w' ≤ calls w = wait_keeps w in
      let once = do_embed_batch-AnswersIn w' in
      let w'' = (do_embed_batch create_embeddings model texts w').1 in
      elim (Option-cases (wait w).0) [
        | inr (e, limited) ↦ rw (limited, attempt) (tt, omega arith)
        | inl free ↦ elim (Embedded-cases (do_embed_batch create_embeddings model texts w').0) [
          | inr (es, tokens, answer) ↦
              rw (free, attempt) (rw (answer, attempt) (rw answer at once.0, omega arith))
          | inl (e, failure) ↦
              let later = h e w'' in
              rw (free, attempt) (rw (failure, attempt) (later.0, omega arith))
        ]
      ]

  retry_from-AnswersIn :
      (left delay : ℕ) (e : EmbedError) (w : W)
      → AnswersIn left w (retry_from create_embeddings wait sleep model texts left delay e w)
  unfolding retry_from
  retry_from-AnswersIn zero delay e w = (tt, omega arith)
  retry_from-AnswersIn (suc left) delay e w =
      let slept = sleep_keeps delay w in
      let later =
        attempt-AnswersIn left
          (retry_from create_embeddings wait sleep model texts left (delay * 2))
          (retry_from-AnswersIn left (delay * 2)) (sleep delay w).1 in
      elim (Option-cases (sleep delay w).0) [
        | inr (e', ended) ↦ rw (ended, retry_from) (tt, omega arith)
        | inl awake ↦ rw (awake, retry_from) (later.0, omega arith)
      ]

  -- A batch is answered with the embedding of each text or with an error, after at most one call of
  -- the service more than there are retries, where a successful call of the service gives the
  -- embedding of each text and the limiter and the timer make no call.
  pub embed_batch_with_retry-AnswersIn :
      (config : EmbedderConfig) (w : W)
      → config.model ≡ model
      → AnswersIn
          (suc config.max_retries)
          w
          (embed_batch_with_retry create_embeddings wait sleep config texts w)
  unfolding embed_batch_with_retry
  embed_batch_with_retry-AnswersIn config w same = rw same (
      attempt-AnswersIn config.max_retries
        (retry_from create_embeddings wait sleep model texts config.max_retries config.retry_delay)
        (retry_from-AnswersIn config.max_retries config.retry_delay) w)
