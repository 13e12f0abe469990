-- ===== src/Realtime/Detector/Changes.antt =====
-- internal/realtime/detector.go: which changes are announced over any sequence of checks.
use syara_ai.Base.{
  ℕ, ◌≡◌, ◌≢◌, Option, none, some, List, [], ◌∷◌, ◌++◌, Text, ◌⊎◌, lookup, suc, text_equality, ◌+◌,
}
use syara_ai.Realtime.Events.{publish, new_document_changed_event, Bus, Event, document_changed}
use syara_ai.Realtime.Redis.{replied, Redis}
use syara_ai.Realtime.Fetch.{MonitoredSource}
use syara_ai.Realtime.Detector.{ChangeDetector, compare_hash, new_document_changed_event, publish}

-- The hash that an event announces.
abbrev pub hash_of : Event → List Text
hash_of (document_changed e) = e.content_hash ∷ []
hash_of _ = []

-- What a sequence of checks announces from the stored hash on: the announced hashes, how many
-- announcements failed, and the hash that is stored at the end.
pub data Announces : Text → List Text → List Text → ℕ → Text → Type 0 where
  ended : {p : Text} → Announces p [] [] 0 p
  unchanged :
      {p h q : Text} {hs news : List Text} {n : ℕ}
      → h ≡ p
      → Announces p hs news n q
      → Announces p (h ∷ hs) news n q
  announces :
      {p h q : Text} {hs news : List Text} {n : ℕ}
      → h ≢ p
      → Announces h hs news n q
      → Announces p (h ∷ hs) (h ∷ news) n q
  missed :
      {p h q : Text} {hs news : List Text} {n : ℕ}
      → h ≢ p
      → Announces p hs news n q
      → Announces p (h ∷ hs) news (suc n) q

-- The errors counted for a source.
abbrev pub errors_of : MonitoredSource → ChangeDetector → ℕ
errors_of source d = elim (lookup source.url d.metrics.errors) [ none ↦ 0 | some n ↦ n ]

-- What the code relies on of the store and the bus: the key holds what was written to it last, and
-- an event is sent exactly if the bus gives no error.
pub record IsStore {W : Type 0} (bus : Bus W) (redis : Redis W) (key : Text)
    (stored : W → Option Text) (sent : W → List Text) : Type 0 where
  pub get_reads :
      (w : W)
      → ((redis.get key w).0 ≡ replied (stored w))
        × (stored (redis.get key w).1 ≡ stored w)
        × (sent (redis.get key w).1 ≡ sent w)
  pub set_writes :
      (h : Text) (w : W)
      → (stored (redis.set key h w).1 ≡ some h) × (sent (redis.set key h w).1 ≡ sent w)
  pub now_keeps : (w : W) → (stored (bus.now w).1 ≡ stored w) × (sent (bus.now w).1 ≡ sent w)
  pub id_keeps : (w : W) → (stored (bus.new_id w).1 ≡ stored w) × (sent (bus.new_id w).1 ≡ sent w)
  pub send_sends :
      (subject : Text) (event : Event) (w : W)
      → (stored (bus.send subject event w).1 ≡ stored w)
        × (sent (bus.send subject event w).1
            ≡ sent w ++ elim (bus.send subject event w).0 [ none ↦ hash_of event | some e ↦ [] ])

module _ {W : Type 0} {bus : Bus W} {redis : Redis W} {stored : W → Option Text}
    {sent : W → List Text} (source : MonitoredSource) {key : Text}
    (laws : IsStore bus redis key stored sent) where
  -- One check against a stored hash: the same hash leaves all as it is, and another is announced and
  -- stored, or counted as an error and left for the next check.
  Follows : Text → Text → ChangeDetector → W → ChangeDetector × W → Type 0
  Follows p h d w r =
      ((h ≡ p)
        × (stored r.1 ≡ some p)
        × (sent r.1 ≡ sent w)
        × (errors_of source r.0 ≡ errors_of source d))
      ⊎ ((h ≢ p)
          × (stored r.1 ≡ some h)
          × (sent r.1 ≡ sent w ++ h ∷ [])
          × (errors_of source r.0 ≡ errors_of source d))
      ⊎ ((h ≢ p)
          × (stored r.1 ≡ some p)
          × (sent r.1 ≡ sent w)
          × (errors_of source r.0 ≡ errors_of source d + 1))

  -- Checks one after another, by the hash of what was fetched at each.
  unfoldable pub checks : List Text → ChangeDetector → W → ChangeDetector × W
  checks [] d w = (d, w)
  checks (h ∷ hs) d w = let (d', w') = compare_hash bus redis source h d w in checks hs d' w'
