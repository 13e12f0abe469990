-- ===== src/Realtime/Fetch.antt =====
-- internal/realtime/detector.go: the monitored sources and the fetching of a page with its retries. The
-- web and the timer are parameters.
use syara_ai.Base.{
  ℕ, zero, suc, ◌+◌, ◌*◌, Bool, ◌||◌, Option, none, some, List, [], ◌∷◌, ◌++◌, ◌==◌, if◌then◌else◌,
  length, take, drop, Text, codes, text_equality,
}
use syara_ai.Base.{decimal, index}

-- The interval is a text, too, in the form in which an event carries it.
pub record MonitoredSource : Type 0 where
  pub url : Text
  pub check_interval : Text
  pub source_type : Text
  pub category : Text
  pub name : Text
  pub enabled : Bool

pub record ChangeDetectorConfig : Type 0 where
  pub sources : List MonitoredSource
  pub max_retries : ℕ
  pub retry_delay : ℕ
  pub hash_cache_prefix : Text

-- A quote, `&` or a space ends a dynamic value.
abbrev ends_value : ℕ → Bool
ends_value c = c == 34 || (c == 39 || (c == b'&' || c == 32))

skip_value : Text → Text
skip_value [] = []
skip_value (c ∷ s) = let rest = skip_value s in if ends_value c then c ∷ s else rest

-- The first occurrence of a pattern is cut out with its value.
cut_pattern : Text → Text → Text
unfolding index skip_value
cut_pattern pattern s = elim (index s pattern) [
  | none ↦ s
  | some i ↦ take i s ++ skip_value (drop (i + length pattern) s)
]

unfoldable pub normalize_content : Text → Text
unfolding cut_pattern
normalize_content content = cut_pattern (codes "cache_buster") (
    cut_pattern (codes "timestamp")
      (cut_pattern (codes "csrf_token") (cut_pattern (codes "nonce=") content)))

-- The host of a URL: what stands between "://" and the next "/".
unfoldable pub host_of : Text → Text
unfolding index
host_of url = elim (index url (codes "://")) [
  | none ↦ url
  | some i ↦
      let host = drop (i + 3) url in
      elim (index host (codes "/")) [ none ↦ host | some j ↦ take j host ]
]

pub data Fetched : Type 0 where
  failed : Text → Fetched
  content : Text → Fetched

-- What an HTTP request gives: an error before it or of it, or the status and the reading of the
-- body, which may fail.
pub data Response : Type 0 where
  not_created : Text → Response
  unreachable : Text → Response
  response : ℕ → Fetched → Response

module _ {W : Type 0} (http_get : Text → W → Response × W) (sleep : ℕ → W → Option Text × W) where
  unfoldable pub fetch_url : Text → W → Fetched × W
  unfolding normalize_content decimal
  fetch_url url w =
      let (result, w') = http_get url w in
      elim result [
        | not_created e ↦ (failed (codes "failed to create request: " ++ e), w')
        | unreachable e ↦ (failed (codes "failed to fetch URL: " ++ e), w')
        | response status (failed e) ↦
            if status == 200
            then (failed (codes "failed to read response body: " ++ e), w')
            else (failed (codes "unexpected status code: " ++ decimal status), w')
        | response status (content body) ↦
            if status == 200
            then (content (normalize_content (take (10 * 1024 * 1024) body)), w')
            else (failed (codes "unexpected status code: " ++ decimal status), w')
      ]

  -- The attempts after attempt `n - 1`, with the attempts left; the delay grows with `n`.
  unfoldable pub fetch_again : ChangeDetectorConfig → Text → ℕ → ℕ → Text → W → Fetched × W
  unfolding fetch_url decimal
  fetch_again config url n zero last_err w = (
    failed (codes "failed after " ++ decimal config.max_retries ++ codes " retries: " ++ last_err),
    w,
  )
  fetch_again config url n (suc left) last_err w =
      let (ended, w') = sleep (config.retry_delay * n) w in
      elim ended [
        | some e ↦ (failed e, w')
        | none ↦
            let (result, w'') = fetch_url url w' in
            elim result [
              | content c ↦ (content c, w'')
              | failed e ↦ fetch_again config url (suc n) left e w''
            ]
      ]

  unfoldable pub fetch_with_retry : ChangeDetectorConfig → Text → W → Fetched × W
  unfolding fetch_again fetch_url
  fetch_with_retry config url w =
      let (result, w') = fetch_url url w in
      elim result [
        | content c ↦ (content c, w')
        | failed e ↦ fetch_again config url 1 config.max_retries e w'
      ]
