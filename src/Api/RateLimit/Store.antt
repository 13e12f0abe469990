-- ===== src/Api/RateLimit/Store.antt =====
-- internal/api/middleware/ratelimit.go: the interface of the stores, and the in-memory store. Times are
-- nanoseconds, and each call is given the reading of the clock.
use syara_ai.Base.{
  ℕ, ◌+◌, Bool, true, Option, none, some, [], ◌∷◌, ltb, if◌then◌else◌, Text, Dict, lookup, insert,
  text_equality,
}

-- The interface, on a store's state `S`; `none` is an error.
pub record RateLimitStore (S : Type 0) : Type 0 where
  pub increment : Text → ℕ → ℕ → S → Option ℕ × S
  pub get_count : Text → ℕ → S → Option ℕ × S
  pub is_healthy : S → Bool

pub record RateLimitEntry : Type 0 where
  pub count : ℕ
  pub expires_at : ℕ

-- The in-memory store: increment, count and cleanup at the time `now`. An int64 counter is taken not
-- to overflow.
abbrev pub MemoryStore : Type 0
MemoryStore = Dict Text RateLimitEntry

-- The entry of a key unless it has expired.
abbrev pub current : Text → ℕ → MemoryStore → Option RateLimitEntry
current key now s = elim (lookup key s) [
  | none ↦ none
  | some entry ↦ if ltb entry.expires_at now then none else some entry
]

unfoldable pub increment : Text → ℕ → ℕ → MemoryStore → ℕ × MemoryStore
increment key window now s = elim (current key now s) [
  | none ↦ (1, insert key (record { count = 1; expires_at = now + window }) s)
  | some entry ↦ (entry.count + 1, insert key (record entry { count = entry.count + 1 }) s)
]

unfoldable pub get_count : Text → ℕ → MemoryStore → ℕ
get_count key now s = elim (lookup key s) [
  | none ↦ 0
  | some entry ↦ if ltb now entry.expires_at then entry.count else 0
]

-- One tick of the cleanup.
unfoldable pub cleanup : ℕ → MemoryStore → MemoryStore
cleanup now [] = []
cleanup now ((key, entry) ∷ s) =
    let rest = cleanup now s in if ltb entry.expires_at now then rest else (key, entry) ∷ rest

abbrev pub memory_store : RateLimitStore MemoryStore
memory_store = record {
  increment =
      λ key window now s. (some (increment key window now s).0, (increment key window now s).1);
  get_count = λ key now s. (some (get_count key now s), s);
  is_healthy = λ s. true;
}
