-- ===== src/Embedder/Tests.antt =====
-- Runs of the embedder at concrete inputs, and its theorems there.
use syara_ai.Base.{
  text_equality, ℕ, zero, suc, ◌≡◌, refl, Option, none, some, List, [], ◌∷◌, map, length, Text,
  codes, arith, last, ◌≤◌, any, ◌+◌, text_eq, lookup, false, true, IsDistinct,
}
use syara_ai.Embedder.Cache.{new_cache, get, set}
use syara_ai.Embedder.Cache.Window.{Sets, set_all, added, set_all-last}
use syara_ai.Embedder.Batch.{
  EmbedderConfig, OpenAiEmbedder, default_embedder_config, no_stats, Answer, refused, answered,
  done, embed_batch, embed_batch_with_retry, batches, do_embed_batch, retry_from, store,
  split_cached,
}
use syara_ai.Embedder.Batch.Retry.{IsAnswer, embed_batch_with_retry-AnswersIn}
use syara_ai.Embedder.Batch.Right.{IsRight, Returns, embed_batch-Sound}

-- A key stands for its text.
abbrev key : Text → Text
key text = text

abbrev three_sets : Sets ℕ
three_sets = (codes "a", 1, 10) ∷ (codes "b", 2, 11) ∷ (codes "a", 3, 12) ∷ (codes "c", 4, 13) ∷ []

-- The text "a" goes first, although its embedding was asked for again.
first_goes :
    (get key (set_all key (new_cache 2) three_sets) (codes "a") ≡ none)
    × (get key (set_all key (new_cache 2) three_sets) (codes "b") ≡ some 2)
unfolding get set set_all
first_goes = (refl, refl)

set_all-last_example :
    let c = set_all key (new_cache 2) three_sets in
    (c.order ≡ last 2 (added key (new_cache 2) three_sets))
    × (any (text_eq (codes "b")) c.order
        ≡ elim (lookup (codes "b") c.entries) [ none ↦ false | some e ↦ true ])
    × (length c.entries ≡ length c.order)
    × (length c.entries ≤ 2)
    × IsDistinct c.entries
set_all-last_example = set_all-last key 1 three_sets (codes "b")

-- A service that is busy at its first call; the world is its calls, and the embedding of a text is
-- its length.
abbrev create : Text → List Text → ℕ → Answer ℕ × ℕ
create model texts zero = (refused (codes "busy"), 1)
create model texts (suc w) = (answered (map length texts) 5, suc (suc w))

abbrev at_once : ℕ → Option Text × ℕ
at_once w = (none, w)

abbrev clock : ℕ → ℕ × ℕ
clock w = (w, w)

create_meaning :
    (texts : List Text) (w : ℕ) (embeddings : List ℕ) (tokens : ℕ)
    → (create (codes "m") texts w).0 ≡ answered embeddings tokens
    → length embeddings ≡ length texts
    → embeddings ≡ map length texts
create_meaning texts zero embeddings tokens h n = cc
create_meaning texts (suc w) embeddings tokens h n = cc

create_counts : (model : Text) (texts : List Text) (w : ℕ) → (create model texts w).1 ≤ suc w
create_counts model texts zero = omega arith
create_counts model texts (suc w) = omega arith

abbrev config : EmbedderConfig
config = record (default_embedder_config (codes "key")) { model = codes "m"; max_batch_size = 2 }

abbrev embedder : OpenAiEmbedder ℕ
embedder = record { config = config; cache = some (new_cache 2); stats = no_stats }

abbrev texts : List Text
texts = codes "a" ∷ codes "bcd" ∷ codes "ef" ∷ []

embedded_texts :
    (embed_batch key clock create at_once (λ d. at_once) embedder texts 0).0
    ≡ done (some 1 ∷ some 3 ∷ some 2 ∷ [])
unfolding embed_batch embed_batch_with_retry batches do_embed_batch retry_from store split_cached
    get set
embedded_texts = refl

embed_batch-Sound_example :
    let (outcome, e', w') = embed_batch key clock create at_once (λ d. at_once) embedder texts 0 in
    Returns key length (map (λ t. some (length t)) texts) outcome × IsRight key length e'.cache
embed_batch-Sound_example =
    embed_batch-Sound key length (λ s t e. e) clock create at_once (λ d. at_once) (codes "m")
      create_meaning embedder texts 0 (omega arith) refl tt

embed_batch_with_retry-AnswersIn_example :
    let r = embed_batch_with_retry create at_once (λ d. at_once) config texts 0 in
    IsAnswer length texts r.0 × (r.1 ≤ 0 + 4)
embed_batch_with_retry-AnswersIn_example =
    embed_batch_with_retry-AnswersIn create at_once (λ d. at_once) (λ w. w) create_counts
      (λ w. omega arith) (λ d w. omega arith) length (codes "m") create_meaning texts config 0 refl
