-- ===== src/Realtime/Invalidator/Tests.antt =====
-- Runs of the cache invalidator at concrete inputs, and its theorem there.
use syara_ai.Base.{
  ◌≡◌, refl, Bool, true, false, none, some, Option, List, [], ◌∷◌, any, All, All-map, Text, codes,
  text_eq, text_eq_refl, if◌then◌else◌, length, arith,
}
use syara_ai.Realtime.Events.{DocumentIndexedEvent}
use syara_ai.Realtime.Worker.{Disposition, ack, nak}
use syara_ai.Realtime.Redis.{refused, replied, Redis}
use syara_ai.Realtime.Invalidator.{
  CacheMetrics, default_cache_invalidator_config, delete_from, delete_keys, scan_from, resume,
  invalidate_by_pattern, invalidate_patterns, invalidate_topics, invalidate_keys,
  invalidate_document_key, invalidate_source, invalidate_on_update, handle_document_indexed,
}
use syara_ai.Realtime.Invalidator.Post.{Post}
use syara_ai.Realtime.Invalidator.Gone.{Keeps, Gone, IsRedis}
use syara_ai.Realtime.Invalidator.Acked.{Promises, handle_document_indexed-Promises}

-- The world says which keys are there; a scan finds none, and where `down` nothing is deleted.
abbrev Keys : Type 0
Keys = Text → Bool

abbrev without : List Text → Keys → Keys
without keys w k = if any (text_eq k) keys then false else w k

abbrev redis_at : Bool → Redis Keys
redis_at down = record {
  get = λ k w. (replied none, w);
  set = λ k v w. (replied tt, w);
  del = λ keys w.
      if down then (refused (codes "down"), w) else (replied (length keys), without keys w);
  scan = λ cursor pattern count w. (replied ([], 0), w);
  publish = λ channel body w. (replied tt, w);
}

any_self : (keys : List Text) → All (λ k. any (text_eq k) keys ≡ true) keys
any_self [] = tt
any_self (k ∷ keys) = (
  ground (arith, text_eq_refl k),
  All-map (λ j. any (text_eq j) keys ≡ true) (λ j. any (text_eq j) (k ∷ keys) ≡ true) keys
      (λ j h. ground arith) (any_self keys),
)

without-Gone : (keys : List Text) (w : Keys) → Gone (λ v. v) (without keys w) keys
without-Gone keys w =
    All-map (λ k. any (text_eq k) keys ≡ true) (λ k. without keys w k ≡ false) keys
      (λ k h. rw h refl) (any_self keys)

without-Keeps : (keys : List Text) (w : Keys) → Keeps (λ v. v) w (without keys w)
without-Keeps keys w k h = ground arith

redis_at-IsRedis : IsRedis (redis_at false) (λ w. w) (λ c. c)
redis_at-IsRedis = record {
  del_gone = λ keys w n h. without-Gone keys w;
  del_keeps = without-Keeps;
  scan_keeps = λ cursor count pattern w k h. h;
  cursor_falls = λ cursor count pattern w keys next h. absurd (cc);
  publish_keeps = λ channel body w k h. h;
}

abbrev indexed : DocumentIndexedEvent
indexed = record {
  event_id = codes "e";
  document_id = codes "7";
  source_url = [];
  source_type = codes "bnm";
  title = [];
  affected_topics = codes "Takaful" ∷ [];
  indexed_at = 0;
  cache_keys = codes "a" ∷ codes "b" ∷ [];
}

abbrev no_metrics : CacheMetrics
no_metrics = record {
  keys_invalidated = 0;
  patterns_processed = 0;
  invalidation_events = 0;
  invalidation_errors = 0;
}

abbrev everything : Keys
everything k = true

abbrev said : Option ((Disposition × CacheMetrics) × Keys) → Option Disposition
said none = none
said (some (r, w)) = some r.0

acked_and_refused :
    (said (
        handle_document_indexed
          (redis_at false)
          default_cache_invalidator_config
          1
          (λ body. some indexed)
          []
          no_metrics
          everything)
      ≡ some ack)
    × (said (
          handle_document_indexed
            (redis_at true)
            default_cache_invalidator_config
            1
            (λ body. some indexed)
            []
            no_metrics
            everything)
        ≡ some nak)
unfolding handle_document_indexed invalidate_on_update invalidate_keys delete_keys delete_from
    invalidate_document_key invalidate_topics invalidate_patterns invalidate_by_pattern scan_from
    resume invalidate_source
acked_and_refused = (refl, refl)

handle_document_indexed-Promises_example :
    Post
      (λ result v. Promises result.0 (Gone (λ w. w) v (codes "doc:7" ∷ codes "a" ∷ codes "b" ∷ [])))
      (handle_document_indexed
        (redis_at false)
        default_cache_invalidator_config
        1
        (λ body. some indexed)
        []
        no_metrics
        everything)
handle_document_indexed-Promises_example =
    handle_document_indexed-Promises redis_at-IsRedis default_cache_invalidator_config (omega arith)
      1 (omega arith) (λ body. some indexed) [] indexed no_metrics everything refl
