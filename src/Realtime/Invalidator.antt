-- ===== src/Realtime/Invalidator.antt =====
-- internal/realtime/cache.go: the invalidation of cached answers. The deadline of an invalidation
-- shows in the replies of Redis; log lines and durations are left out.
pub mod Post
pub mod Gone
pub mod Acked
pub mod Tests
use syara_ai.Base.{
  ℕ, zero, suc, ◌+◌, Bool, true, false, Option, none, some, List, [], ◌∷◌, ◌++◌, ltb, leb, ◌==◌,
  if◌then◌else◌, length, take, drop, Text, codes, text_eq, to_lower, decimal,
}
use syara_ai.Realtime.Events.{DocumentIndexedEvent, CacheInvalidateEvent}
use syara_ai.Realtime.Worker.{Disposition, ack, nak}
use syara_ai.Realtime.Redis.{Reply, refused, replied, Redis, M, ◌>>=◌, pure, call}

pub record CacheInvalidatorConfig : Type 0 where
  pub batch_size : ℕ
  pub scan_count : ℕ
  pub publish_channel : Text
  pub enable_pattern_scan : Bool
  pub max_keys_per_pattern : ℕ

abbrev pub default_cache_invalidator_config : CacheInvalidatorConfig
default_cache_invalidator_config = record {
  batch_size = 100;
  scan_count = 1000;
  publish_channel = codes "cache:invalidated";
  enable_pattern_scan = true;
  max_keys_per_pattern = 10000;
}

pub record CacheMetrics : Type 0 where
  pub keys_invalidated : ℕ
  pub patterns_processed : ℕ
  pub invalidation_events : ℕ
  pub invalidation_errors : ℕ

-- An `InvalidationResult` under way, with the metrics.
pub record Invalidation : Type 0 where
  pub keys_deleted : ℕ
  pub patterns_matched : ℕ
  pub errors : List Text
  pub metrics : CacheMetrics

abbrev started : CacheMetrics → Invalidation
started m = record {
  keys_deleted = 0;
  patterns_matched = 0;
  errors = [];
  metrics = record m { invalidation_events = m.invalidation_events + 1 };
}

-- The keys deleted, and the error that ended it, if any.
abbrev pub Deleted : Type 0
Deleted = ℕ × Option Text

abbrev noted : Text → Deleted → Invalidation → Invalidation
noted label (n, none) r = record r { keys_deleted = r.keys_deleted + n }
noted label (n, some e) r = record r {
  keys_deleted = r.keys_deleted + n;
  errors = r.errors ++ (label ++ e) ∷ [];
}

abbrev matched : Invalidation → Invalidation
matched r = record r { patterns_matched = r.patterns_matched + 1 }

abbrev processed : Invalidation → Invalidation
processed r = record r {
  metrics = record (r.metrics) { patterns_processed = r.metrics.patterns_processed + 1 };
}

abbrev topic_patterns : Text → List Text
topic_patterns topic =
    (codes "query_cache:" ++ to_lower topic ++ codes "*")
    ∷ (codes "retrieve:" ++ codes "*" ++ to_lower topic ++ codes "*")
    ∷ []

-- A deletion counts one key, also where there was none.
abbrev document_noted : Reply ℕ → Invalidation → Invalidation
document_noted (refused e) r = record r {
  errors = r.errors ++ (codes "delete doc key: " ++ e) ∷ [];
}
document_noted (replied n) r = record r { keys_deleted = r.keys_deleted + 1 }

-- The keys that were deleted are added to the metrics; the error says that there were errors.
abbrev ended : Invalidation → Invalidation × Option Text
ended r =
    let r' : Invalidation = record r {
      metrics = record (r.metrics) {
        keys_invalidated = r.metrics.keys_invalidated + r.keys_deleted;
      };
    } in
    elim r.errors [
      | [] ↦ (r', none)
      | e ∷ es ↦ (
        r',
        some (codes "partial invalidation with " ++ decimal (length r.errors) ++ codes " errors"),
      )
    ]

abbrev count_error : CacheMetrics → CacheMetrics
count_error m = record m { invalidation_errors = m.invalidation_errors + 1 }

-- What a handler says about its message, and the metrics after it.
abbrev settled : Invalidation × Option Text → Disposition × CacheMetrics
settled (r, none) = (ack, r.metrics)
settled (r, some e) = (nak, count_error r.metrics)

module _ {W : Type 0} (redis : Redis W) (config : CacheInvalidatorConfig) where
  -- The loop over the batches, by fuel: the keys left and the keys deleted.
  unfoldable pub delete_from : ℕ → List Text → ℕ → M W Deleted
  delete_from fuel [] total = pure (total, none)
  delete_from zero (k ∷ keys) total = λ w. none
  delete_from (suc fuel) (k ∷ keys) total = do
    reply ← call (redis.del (take config.batch_size (k ∷ keys)))
    elim reply [
      | refused e ↦ pure (total, some (codes "failed to delete batch: " ++ e))
      | replied n ↦ delete_from fuel (drop config.batch_size (k ∷ keys)) (total + n)
    ]

  -- As many rounds are given as there are keys.
  unfoldable pub delete_keys : List Text → M W Deleted
  unfolding delete_from
  delete_keys keys = delete_from (length keys) keys 0

  -- After the keys of one reply are deleted: stop at an error, at enough keys or at the last cursor.
  unfoldable pub resume : (ℕ → ℕ → ℕ → M W Deleted) → ℕ → ℕ → ℕ → Deleted → M W Deleted
  resume again total seen next (n, some e) = pure (total, some e)
  resume again total seen zero (n, none) = pure (total + n, none)
  resume again total seen (suc c) (n, none) = elim (leb config.max_keys_per_pattern seen) [
    | true ↦ pure (total + n, none)
    | false ↦ again (suc c) (total + n) seen
  ]

  -- The loop over the cursor, by fuel: the keys deleted and the keys seen.
  unfoldable pub scan_from : ℕ → Text → ℕ → ℕ → ℕ → M W Deleted
  scan_from zero pattern cursor total seen = λ w. none
  scan_from (suc fuel) pattern cursor total seen = do
    reply ← call (redis.scan cursor pattern config.scan_count)
    elim reply [
      | refused e ↦ pure (total, some (codes "scan failed: " ++ e))
      | replied (keys, next) ↦
          delete_keys keys >>= resume (scan_from fuel pattern) total (seen + length keys) next
    ]

  module _ (rounds : ℕ) where
    -- The fuel of the scan is `rounds`.
    unfoldable pub invalidate_by_pattern : Text → M W Deleted
    unfolding scan_from resume
    invalidate_by_pattern pattern = scan_from rounds pattern 0 0 0

    unfoldable pub invalidate_patterns : List Text → Invalidation → M W Invalidation
    invalidate_patterns [] r = pure r
    invalidate_patterns (pattern ∷ patterns) r = do
      deleted ← invalidate_by_pattern pattern
      invalidate_patterns patterns
          (processed (matched (noted (codes "pattern " ++ pattern ++ codes ": ") deleted r)))

    unfoldable pub invalidate_topics : List Text → Invalidation → M W Invalidation
    unfolding to_lower
    invalidate_topics [] r = pure r
    invalidate_topics (topic ∷ topics) r = do
      r' ← invalidate_patterns (topic_patterns topic) r
      invalidate_topics topics r'

    -- The named keys, where there are any.
    unfoldable pub invalidate_keys : List Text → Invalidation → M W Invalidation
    invalidate_keys [] r = pure r
    invalidate_keys (k ∷ keys) r = do
      deleted ← delete_keys (k ∷ keys)
      pure (noted (codes "delete keys: ") deleted r)

    unfoldable pub invalidate_document_key : Text → Invalidation → M W Invalidation
    invalidate_document_key document_id r = do
      reply ← call (redis.del ((codes "doc:" ++ document_id) ∷ []))
      pure (document_noted reply r)

    unfoldable pub invalidate_source : Text → Invalidation → M W Invalidation
    invalidate_source [] r = pure r
    invalidate_source (c ∷ source_type) r = do
      deleted ← invalidate_by_pattern (codes "source_cache:" ++ (c ∷ source_type) ++ codes "*")
      pure (matched (noted (codes "source pattern: ") deleted r))

    unfoldable pub invalidate_on_update :
        CacheMetrics → DocumentIndexedEvent → M W (Invalidation × Option Text)
    unfolding decimal
    invalidate_on_update metrics event = do
      a ← invalidate_keys event.cache_keys (started metrics)
      b ← invalidate_document_key event.document_id a
      c ← if config.enable_pattern_scan then invalidate_topics event.affected_topics b else pure b
      d ← invalidate_source event.source_type c
      notice ← call (
          redis.publish config.publish_channel
            (event.document_id ∷ event.source_type ∷ event.affected_topics ++ event.cache_keys))
      pure (ended d)

    unfoldable pub invalidate_by_keys_and_patterns :
        CacheMetrics → List Text → List Text → M W (Invalidation × Option Text)
    unfolding decimal
    invalidate_by_keys_and_patterns metrics keys patterns = do
      a ← invalidate_keys keys (started metrics)
      b ← if config.enable_pattern_scan then invalidate_patterns patterns a else pure a
      pure (ended b)

    unfoldable pub handle_document_indexed :
        (Text → Option DocumentIndexedEvent)
        → Text
        → CacheMetrics
        → M W (Disposition × CacheMetrics)
    handle_document_indexed unmarshal body metrics = elim (unmarshal body) [
      | none ↦ pure (nak, metrics)
      | some event ↦ do result ← invalidate_on_update metrics event; pure (settled result)
    ]

    unfoldable pub handle_cache_invalidate :
        (Text → Option CacheInvalidateEvent)
        → Text
        → CacheMetrics
        → M W (Disposition × CacheMetrics)
    handle_cache_invalidate unmarshal body metrics = elim (unmarshal body) [
      | none ↦ pure (nak, metrics)
      | some event ↦ do
        result ← invalidate_by_keys_and_patterns metrics event.cache_keys event.patterns
        pure (settled result)
    ]

    unfoldable pub invalidate_document : CacheMetrics → Text → M W (Option Text)
    invalidate_document metrics id = do
      (r, error) ← invalidate_by_keys_and_patterns metrics [] (
          (codes "doc:" ++ id)
          ∷ (codes "doc:" ++ id ++ codes ":*")
          ∷ (codes "*:" ++ id ++ codes ":*")
          ∷ [])
      pure error

    unfoldable pub invalidate_by_source : Text → M W (Option Text)
    invalidate_by_source source_type = do
      (n, error) ← invalidate_by_pattern (codes "source_cache:" ++ source_type ++ codes "*")
      pure error

    -- The loop of `InvalidateAll` over the prefixes.
    unfoldable pub invalidate_prefixes : List Text → M W (Option Text)
    invalidate_prefixes [] = pure none
    invalidate_prefixes (prefix ∷ prefixes) = do
      (n, error) ← invalidate_by_pattern (prefix ++ codes "*")
      elim error [
        | none ↦ invalidate_prefixes prefixes
        | some e ↦ pure (some (codes "failed to invalidate prefix " ++ prefix ++ codes ": " ++ e))
      ]

    abbrev pub invalidate_all : M W (Option Text)
    invalidate_all = invalidate_prefixes (
        codes "embed:"
        ∷ codes "retrieve:"
        ∷ codes "doc:"
        ∷ codes "query_cache:"
        ∷ codes "source_cache:"
        ∷ [])

  unfoldable pub invalidate_query : Text → M W (Option Text)
  invalidate_query query_hash = do
    (n, error) ← delete_keys (
        (codes "embed:" ++ query_hash)
        ∷ (codes "retrieve:" ++ query_hash)
        ∷ (codes "query_cache:" ++ query_hash)
        ∷ [])
    pure error
