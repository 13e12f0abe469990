-- ===== src/Api/RateLimit/Window.antt =====
-- internal/api/middleware/ratelimit.go: how many requests of a client the limiter lets through in a
-- window, with the in-memory store.
use syara_ai.Base.{
  ℕ, ◌+◌, ◌-◌, ◌≤◌, ◌≡◌, refl, ap, ◌∙◌, Bool, true, false, ◌&&◌, leb, Bool-cases, Option-cases,
  none, some, List, [], ◌∷◌, ltb, inl, inr, min, All, Text, text_eq, text_eq_refl, text_eq_iff,
  lookup, lookup-insert, lookup-insert_self, text_equality, arith,
}
use syara_ai.Api.RateLimit.Client.{Request}
use syara_ai.Api.RateLimit.Store.{
  RateLimitEntry, MemoryStore, current, increment, cleanup, memory_store,
}
use syara_ai.Api.RateLimit.Cleanup.{lookup-cleanup}
use syara_ai.Api.RateLimit.{
  RateLimitConfig, RateLimitMetrics, Decision, allowed, rejected, unchecked, unavailable, get_limit,
  key_of, middleware,
}

-- What happens to the store: a request to the handler, or a tick of the cleanup, at a time.
pub data Event : Type 0 where
  request : Request → ℕ → Event
  sweep : ℕ → Event

abbrev pub time_of : Event → ℕ
time_of (request r t) = t
time_of (sweep t) = t

abbrev pub is_allowed : Decision → Bool
is_allowed unchecked = false
is_allowed unavailable = false
is_allowed (rejected h n) = false
is_allowed (allowed h) = true

abbrev one_if : Bool → ℕ
one_if true = 1
one_if false = 0

increment-fresh :
    (key : Text) (window t : ℕ) (s : MemoryStore)
    → current key t s ≡ none
    → ((increment key window t s).0 ≡ 1)
      × (lookup key (increment key window t s).1
          ≡ some (record { count = 1; expires_at = t + window }))
unfolding increment
increment-fresh key window t s fresh =
    rw (fresh, increment)
      (refl, lookup-insert_self key (record { count = 1; expires_at = t + window }) s)

module _ (config : RateLimitConfig) (limit_type key : Text) where
  -- The requests that are counted under the key.
  unfoldable pub requests : List Event → ℕ
  requests [] = 0
  requests (request r t ∷ events) = one_if (text_eq (key_of limit_type r) key) + requests events
  requests (sweep t ∷ events) = requests events

  -- Those of them that the handler lets through.
  unfoldable pub served : List Event → MemoryStore → RateLimitMetrics → ℕ
  served [] s metrics = 0
  served (request r t ∷ events) s metrics =
      let (decision, s', metrics') = middleware memory_store config limit_type r t s metrics in
      one_if (text_eq (key_of limit_type r) key && is_allowed decision) + served events s' metrics'
  served (sweep t ∷ events) s metrics = served events (cleanup t s) metrics

  -- The decision and the store after a request.
  middleware-memory_store :
      (r : Request) (t : ℕ) (s : MemoryStore) (metrics : RateLimitMetrics)
      → let limit = get_limit config limit_type in
        let (count, s') = increment (key_of limit_type r) limit.window t s in
        let out = middleware memory_store config limit_type r t s metrics in
        (is_allowed out.0 ≡ leb count limit.requests) × (out.1 ≡ s')
  unfolding middleware
  middleware-memory_store r t s metrics =
      let limit = get_limit config limit_type in
      let count = (increment (key_of limit_type r) limit.window t s).0 in
      elim (Bool-cases (ltb limit.requests count)) [
        | inl over ↦ rw over (ground arith, refl)
        | inr within ↦ rw within (ground arith, refl)
      ]

  increment-other :
      (k : Text) (window t : ℕ) (s : MemoryStore)
      → text_eq k key ≡ false
      → lookup key (increment k window t s).1 ≡ lookup key s
  unfolding increment
  increment-other k window t s other = elim (Option-cases (current k t s)) [
    | inl absent ↦ rw (absent, increment) (lookup-insert k key _ s ∙ rw other refl)
    | inr (entry, found) ↦ rw (found, increment) (lookup-insert k key _ s ∙ rw other refl)
  ]

  -- The count of the key, where it has one that has not expired, goes up by one.
  increment-live :
      (window t : ℕ) (s : MemoryStore) (entry : RateLimitEntry)
      → lookup key s ≡ some entry
      → t ≤ entry.expires_at
      → ((increment key window t s).0 ≡ entry.count + 1)
        × (lookup key (increment key window t s).1
            ≡ some (record entry { count = entry.count + 1 }))
  unfolding increment
  increment-live window t s entry found live =
      let e : current key t s ≡ some entry = rw (found, current) (ground arith) in
      rw (e, increment) (refl, lookup-insert_self key (record entry { count = entry.count + 1 }) s)

  served-live :
      (events : List Event) (s : MemoryStore) (metrics : RateLimitMetrics) (entry : RateLimitEntry)
      → lookup key s ≡ some entry
      → All (λ ev. time_of ev ≤ entry.expires_at) events
      → served events s metrics
        ≡ min ((get_limit config limit_type).requests - entry.count) (requests events)
  unfolding served requests
  served-live [] s metrics entry found live = omega arith
  served-live (sweep t ∷ events) s metrics entry found (now, live) =
      served-live events (cleanup t s) metrics entry (lookup-cleanup key t s entry found now) live
  served-live (request r t ∷ events) s metrics entry found (now, live) =
      let limit = get_limit config limit_type in
      let k = key_of limit_type r in
      let out = middleware memory_store config limit_type r t s metrics in
      let (decided, stored) = middleware-memory_store r t s metrics in
      elim (Bool-cases (text_eq k key)) [
        | inl same ↦
            let e : k ≡ key = (text_eq_iff k key).0 same in
            let (count, entry') = increment-live limit.window t s entry found now in
            let count' : (increment k limit.window t s).0 ≡ entry.count + 1 = rw e count in
            let stored' : lookup key out.1 ≡ some (record entry { count = entry.count + 1 }) =
              ap (lookup key) stored ∙ rw e entry' in
            let ih =
              served-live events out.1 out.2 (record entry { count = entry.count + 1 }) stored'
                live in
            ground (arith, same, decided, count', ih)
        | inr other ↦
            let ih =
              served-live events out.1 out.2 entry
                (ap (lookup key) stored ∙ increment-other k limit.window t s other ∙ found) live in
            ground (arith, other, ih)
      ]

-- Let a client have no current window at a request of its. Of its requests from this one to the end
-- of the window that it opens, among requests of other clients and cleanups, the handler with the
-- in-memory store lets through as many as the limit says, or all where they are fewer.
pub served-window :
    (config : RateLimitConfig) (limit_type : Text) (r : Request) (t : ℕ) (events : List Event)
    (s : MemoryStore) (metrics : RateLimitMetrics)
    → let key = key_of limit_type r in
      let limit = get_limit config limit_type in
      current key t s ≡ none
      → All (λ ev. time_of ev ≤ t + limit.window) events
      → served config limit_type key (request r t ∷ events) s metrics
        ≡ min limit.requests (requests config limit_type key (request r t ∷ events))
unfolding served requests
served-window config limit_type r t events s metrics fresh within =
    let key = key_of limit_type r in
    let limit = get_limit config limit_type in
    let out = middleware memory_store config limit_type r t s metrics in
    let first : RateLimitEntry = record { count = 1; expires_at = t + limit.window } in
    let (decided, stored) = middleware-memory_store config limit_type key r t s metrics in
    let (one, opened) = increment-fresh key limit.window t s fresh in
    let ih =
      served-live config limit_type key events out.1 out.2 first (ap (lookup key) stored ∙ opened)
        within in
    ground (arith, text_eq_refl key, decided, one, ih)
