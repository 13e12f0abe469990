-- ===== src/Api/RateLimit/Cleanup.antt =====
-- internal/api/middleware/ratelimit.go: the entries of the in-memory store under increments and the
-- cleanup.
use syara_ai.Base.{
  ℕ, ◌≤◌, ◌≡◌, refl, ◌∙◌, Bool-cases, Option-cases, none, some, [], ◌∷◌, ltb, if◌then◌else◌, inl,
  inr, Text, text_eq, text_eq_iff, lookup, insert-IsDistinct, text_equality, IsDistinct, arith,
}
use syara_ai.Api.RateLimit.Store.{
  RateLimitEntry, MemoryStore, current, increment, get_count, cleanup,
}

-- An entry that has not expired survives a cleanup.
pub lookup-cleanup :
    (key : Text) (now : ℕ) (s : MemoryStore) (entry : RateLimitEntry)
    → lookup key s ≡ some entry
    → now ≤ entry.expires_at
    → lookup key (cleanup now s) ≡ some entry
unfolding cleanup lookup
lookup-cleanup key now [] entry h live = h
lookup-cleanup key now ((k, e) ∷ s) entry h live = elim (Bool-cases (text_eq k key)) [
  | inl same ↦ ground arith
  | inr other ↦ ground (arith, lookup-cleanup key now s entry (ground arith) live)
]

-- A key that has no entry gets none.
lookup-cleanup-none :
    (key : Text) (now : ℕ) (s : MemoryStore)
    → lookup key s ≡ none
    → lookup key (cleanup now s) ≡ none
unfolding cleanup lookup
lookup-cleanup-none key now [] h = h
lookup-cleanup-none key now ((k, e) ∷ s) h =
    ground (arith, lookup-cleanup-none key now s (ground arith))

cleanup-IsDistinct : (now : ℕ) (s : MemoryStore) → IsDistinct s → IsDistinct (cleanup now s)
unfolding cleanup
cleanup-IsDistinct now [] h = tt
cleanup-IsDistinct now ((k, e) ∷ s) (new, h) = elim (Bool-cases (ltb e.expires_at now)) [
  | inl expired ↦ rw (expired, cleanup) (cleanup-IsDistinct now s h)
  | inr live ↦ rw (live, cleanup) (lookup-cleanup-none k now s new, cleanup-IsDistinct now s h)
]

increment-IsDistinct :
    (key : Text) (window now : ℕ) (s : MemoryStore)
    → IsDistinct s
    → IsDistinct (increment key window now s).1
unfolding increment
increment-IsDistinct key window now s h = elim (Option-cases (current key now s)) [
  | inl absent ↦ rw (absent, increment) (insert-IsDistinct key _ s h)
  | inr (entry, found) ↦ rw (found, increment) (insert-IsDistinct key _ s h)
]

current-cleanup :
    (key : Text) (before now : ℕ) (s : MemoryStore)
    → IsDistinct s
    → before ≤ now
    → current key now (cleanup before s) ≡ current key now s
unfolding cleanup lookup
current-cleanup key before now [] d le = refl
current-cleanup key before now ((k, e) ∷ s) (new, d) le = elim (Bool-cases (text_eq k key)) [
  | inl same ↦
      let e' : k ≡ key = (text_eq_iff k key).0 same in
      ground (arith, lookup-cleanup-none k before s new)
  | inr other ↦ ground (arith, current-cleanup key before now s d le)
]

get_count-current :
    (key : Text) (now : ℕ) (s : MemoryStore)
    → get_count key now s ≡ elim (current key now s) [
      | none ↦ 0
      | some entry ↦ if ltb now entry.expires_at then entry.count else 0
    ]
unfolding get_count
get_count-current key now s = elim (Option-cases (lookup key s)) [
  | inl absent ↦ rw (absent, get_count) refl
  | inr (entry, found) ↦ elim (Bool-cases (ltb entry.expires_at now)) [
    | inl expired ↦ rw (found, get_count) (ground arith)
    | inr live ↦ rw (found, get_count) (rw live refl)
  ]
]

increment-current :
    (key : Text) (window now : ℕ) (s s' : MemoryStore)
    → current key now s ≡ current key now s'
    → (increment key window now s).0 ≡ (increment key window now s').0
unfolding increment
increment-current key window now s s' e = elim (Option-cases (current key now s')) [
  | inl absent ↦ rw (absent, increment) (rw (e ∙ absent, increment) refl)
  | inr (entry, found) ↦ rw (found, increment) (rw (e ∙ found, increment) refl)
]

-- In a store in which no key stands twice, a cleanup changes neither what a later increment returns
-- nor a later count, and it leaves such a store, as each increment does.
pub increment-cleanup :
    (key : Text) (window before now : ℕ) (s : MemoryStore)
    → IsDistinct s
    → before ≤ now
    → ((increment key window now (cleanup before s)).0 ≡ (increment key window now s).0)
      × (get_count key now (cleanup before s) ≡ get_count key now s)
      × IsDistinct (cleanup before s)
      × IsDistinct (increment key window now s).1
increment-cleanup key window before now s d le =
    let same = current-cleanup key before now s d le in
    (
      increment-current key window now (cleanup before s) s same,
      rw (get_count-current key now s, get_count-current key now (cleanup before s), same) refl,
      cleanup-IsDistinct before s d,
      increment-IsDistinct key window now s d,
    )
