-- ===== src/Realtime/Detector.antt =====
-- internal/realtime/detector.go: the check of a source for changes. The web, the limiter, the timer
-- and the hash are parameters; latencies and log lines are left out. One of these cuts the first 16
-- characters off the stored hash, which is taken to have them: SHA-256 in hexadecimal has 64.
pub mod Changes
pub mod Tests
use syara_ai.Base.{
  ℕ, zero, suc, ◌+◌, ◌*◌, Bool, true, false, not, ◌&&◌, Option, none, some, List, [], ◌∷◌, ◌++◌,
  ◌==◌, if◌then◌else◌, length, take, drop, Text, codes, text_eq, index, Dict, lookup, insert,
  text_equality, ◌||◌, decimal,
}
use syara_ai.Realtime.Fetch.{
  MonitoredSource, ChangeDetectorConfig, Fetched, failed, content, Response, host_of,
  fetch_with_retry,
}
use syara_ai.Realtime.Events.{
  DocumentChangedEvent, document_changed, Bus, publish, new_document_changed_event,
}
use syara_ai.Realtime.Redis.{Reply, refused, replied, Redis}

pub record DetectorMetrics : Type 0 where
  pub checks_performed : Dict Text ℕ
  pub changes_detected : Dict Text ℕ
  pub errors : Dict Text ℕ
  pub last_check_time : Dict Text ℕ
  pub last_change_time : Dict Text ℕ

abbrev pub new_detector_metrics : DetectorMetrics
new_detector_metrics = record {
  checks_performed = [];
  changes_detected = [];
  errors = [];
  last_check_time = [];
  last_change_time = [];
}

pub record ChangeDetector : Type 0 where
  pub config : ChangeDetectorConfig
  pub metrics : DetectorMetrics

-- `m[url]++`.
unfoldable pub count : Text → Dict Text ℕ → Dict Text ℕ
unfolding lookup insert
count url m = insert url (elim (lookup url m) [ none ↦ 1 | some n ↦ n + 1 ]) m

unfoldable pub record_check : Text → ℕ → ChangeDetector → ChangeDetector
unfolding count insert
record_check url time d = record d {
  metrics = record (d.metrics) {
    checks_performed = count url d.metrics.checks_performed;
    last_check_time = insert url time d.metrics.last_check_time;
  };
}

unfoldable pub record_change : Text → ℕ → ChangeDetector → ChangeDetector
unfolding count insert
record_change url time d = record d {
  metrics = record (d.metrics) {
    changes_detected = count url d.metrics.changes_detected;
    last_change_time = insert url time d.metrics.last_change_time;
  };
}

unfoldable pub record_error : Text → ChangeDetector → ChangeDetector
unfolding count
record_error url d = record d {
  metrics = record (d.metrics) { errors = count url d.metrics.errors };
}

module _ {W : Type 0} (bus : Bus W) where
  unfoldable pub publish_change_event : MonitoredSource → Text → W → Option Text × W
  publish_change_event source content_hash w =
      let (event, w') =
        new_document_changed_event bus source.url source.source_type source.category content_hash
          w in
      publish bus
        (document_changed (record event {
          metadata =
              (codes "source_name", source.name)
              ∷ (codes "check_interval", source.check_interval)
              ∷ [];
        }))
        w'

  module _ (redis : Redis W) where
    -- The hash that was stored, or the empty text: also where Redis refuses.
    abbrev previous_hash : Reply (Option Text) → Text
    previous_hash (refused e) = []
    previous_hash (replied none) = []
    previous_hash (replied (some hash)) = hash

    -- The current hash is stored, and the check is counted; a refusal is logged only.
    abbrev store_hash : Text → Text → Text → ChangeDetector → W → ChangeDetector × W
    store_hash key url hash d w =
        let (stored, w') = redis.set key hash w in
        let (time, w'') = bus.now w' in (record_check url time d, w'')

    -- From the hash of the content on.
    unfoldable pub compare_hash : MonitoredSource → Text → ChangeDetector → W → ChangeDetector × W
    compare_hash source current d w =
        let key = d.config.hash_cache_prefix ++ source.url in
        let (reply, w1) = redis.get key w in
        let previous = previous_hash reply in
        elim (text_eq current previous) [
          | true ↦ let (time, w2) = bus.now w1 in (record_check source.url time d, w2)
          | false ↦ elim previous [
            | [] ↦ store_hash key source.url current d w1
            | c ∷ hash ↦
                let (error, w2) = publish_change_event source current w1 in
                elim error [
                  | some e ↦ (record_error source.url d, w2)
                  | none ↦
                      let (time, w3) = bus.now w2 in
                      store_hash key source.url current (record_change source.url time d) w3
                ]
          ]
        ]

    module _ (hash_content : Text → Text) (http_get : Text → W → Response × W)
        (sleep : ℕ → W → Option Text × W) (wait : Text → W → Option Text × W) where
      unfoldable pub check_for_changes : MonitoredSource → ChangeDetector → W → ChangeDetector × W
      unfolding fetch_with_retry compare_hash host_of record_error
      check_for_changes source d w =
          let (limited, w1) = wait (host_of source.url) w in
          elim limited [
            | some e ↦ (d, w1)
            | none ↦
                let (fetched, w2) = fetch_with_retry http_get sleep d.config source.url w1 in
                elim fetched [
                  | failed e ↦ (record_error source.url d, w2)
                  | content c ↦ compare_hash source (hash_content c) d w2
                ]
          ]

      -- `ForceCheck`: `false` where no source has the URL.
      unfoldable pub force_check :
          Text → List MonitoredSource → ChangeDetector → W → Bool × ChangeDetector × W
      unfolding check_for_changes
      force_check url [] d w = (false, d, w)
      force_check url (source ∷ sources) d w = elim (text_eq source.url url) [
        | true ↦ let (d', w') = check_for_changes source d w in (true, d', w')
        | false ↦ force_check url sources d w
      ]

-- The list that `AddSource` extends; a source that is not enabled is not monitored.
abbrev pub add_source : MonitoredSource → ChangeDetector → ChangeDetector
add_source source d = record d {
  config = record (d.config) { sources = d.config.sources ++ source ∷ [] };
}

-- The sums of `GetMetrics`.
sum_counts : Dict Text ℕ → ℕ
sum_counts [] = 0
sum_counts ((url, n) ∷ m) = n + sum_counts m

-- Checks, changes, errors, sources and monitors.
unfoldable pub get_metrics : ChangeDetector → ℕ × ℕ × ℕ × ℕ × ℕ
unfolding sum_counts
get_metrics d = (
  sum_counts d.metrics.checks_performed,
  sum_counts d.metrics.changes_detected,
  sum_counts d.metrics.errors,
  length d.config.sources,
  length d.metrics.checks_performed,
)
