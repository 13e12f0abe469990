-- ===== src/Embedder/Cache.antt =====
-- internal/embedder/embedder.go: `embeddingCache`. The key of a text is its hash, which is a
-- parameter; the time is an argument. A nil cache is `none`.
pub mod Window
use syara_ai.Base.{
  ℕ, Bool, true, false, ◌&&◌, Option, none, some, List, [], ◌∷◌, ◌++◌, ltb, leb, if◌then◌else◌,
  length, Text, Dict, lookup, insert, remove, text_equality,
}

pub record CacheEntry (V : Type 0) : Type 0 where
  pub embedding : V
  pub created_at : ℕ

pub record EmbeddingCache (V : Type 0) : Type 0 where
  pub entries : Dict Text (CacheEntry V)
  pub order : List Text
  pub max_size : ℕ

abbrev pub new_cache : {V : Type 0} → ℕ → EmbeddingCache V
new_cache max_size = record { entries = []; order = []; max_size = max_size }

-- The entry that was added first goes, where there is no room.
abbrev pub evict : {V : Type 0} → EmbeddingCache V → EmbeddingCache V
evict c =
    if leb c.max_size (length c.entries) && ltb 0 c.max_size
    then elim c.order [
      | [] ↦ c
      | oldest ∷ order ↦ record c { entries = remove oldest c.entries; order = order }
    ]
    else c

module _ {V : Type 0} (hash_text : Text → Text) where
  unfoldable pub get : EmbeddingCache V → Text → Option V
  unfolding lookup
  get c text = elim (lookup (hash_text text) c.entries) [
    | none ↦ none
    | some entry ↦ some entry.embedding
  ]

  abbrev add : EmbeddingCache V → Text → V → ℕ → EmbeddingCache V
  add c key embedding now = record c {
    entries = insert key (record { embedding = embedding; created_at = now }) c.entries;
    order = c.order ++ key ∷ [];
  }

  unfoldable pub set : EmbeddingCache V → Text → V → ℕ → EmbeddingCache V
  unfolding lookup insert remove
  set c text embedding now =
      let key = hash_text text in
      elim (lookup key c.entries) [ some entry ↦ c | none ↦ add (evict c) key embedding now ]

abbrev pub size : {V : Type 0} → Option (EmbeddingCache V) → ℕ
size none = 0
size (some c) = length c.entries

abbrev pub clear : {V : Type 0} → EmbeddingCache V → EmbeddingCache V
clear c = new_cache c.max_size
