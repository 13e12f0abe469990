-- ===== src/Api/RateLimit.antt =====
-- internal/api/middleware/ratelimit.go: the rate limiter, its in-memory and its Redis store. Times are
-- nanoseconds; each call of a store is given the reading of the clock. Log lines are left out.
pub mod Client
pub mod Store
pub mod Redis
pub mod Window
pub mod Cleanup
use syara_ai.Base.{
  ℕ, ◌+◌, ◌-◌, ◌*◌, ◌/◌, ◌%◌, ◌^◌, Bool, true, false, ◌&&◌, Option, none, some, List, [], ◌∷◌, ◌++◌,
  map, ltb, ◌==◌, if◌then◌else◌, Text, codes, text_eq, Dict, lookup, insert, remove, text_equality,
}
use syara_ai.Api.RateLimit.Store.{RateLimitStore}
use syara_ai.Api.RateLimit.Client.{Request, get_client_id}

pub record Limit : Type 0 where
  pub requests : ℕ
  pub window : ℕ

pub record RateLimitConfig : Type 0 where
  pub chat_requests : Limit
  pub downloads : Limit
  pub conversations : Limit
  pub default : Limit
  pub enable_metrics : Bool
  pub graceful_degradation : Bool

abbrev pub second : ℕ
second = 10 ^ 9

abbrev pub default_rate_limit_config : RateLimitConfig
default_rate_limit_config = record {
  chat_requests = record { requests = 20; window = 60 * second };
  downloads = record { requests = 100; window = 3600 * second };
  conversations = record { requests = 50; window = 60 * second };
  default = record { requests = 100; window = 60 * second };
  enable_metrics = true;
  graceful_degradation = true;
}

pub record RateLimitMetrics : Type 0 where
  pub allowed : Dict Text ℕ
  pub rejected : Dict Text ℕ

pub record Headers : Type 0 where
  pub limit : ℕ
  pub remaining : ℕ
  pub reset : ℕ

-- What a request meets: the next handler without a check, 503, 429 with `Retry-After` beside the
-- headers, or the next handler with the headers.
pub data Decision : Type 0 where
  unchecked unavailable : Decision
  rejected : Headers → ℕ → Decision
  allowed : Headers → Decision

abbrev pub get_limit : RateLimitConfig → Text → Limit
get_limit config limit_type =
    if text_eq limit_type (codes "chat")
    then config.chat_requests
    else if text_eq limit_type (codes "download")
    then config.downloads
    else if text_eq limit_type (codes "conversation")
    then config.conversations
    else config.default

-- `m[key]++` on uint64 counters.
count_up : Text → Dict Text ℕ → Dict Text ℕ
count_up key m = elim (lookup key m) [
  | none ↦ insert key 1 m
  | some n ↦ insert key ((n + 1) % 2 ^ 64) m
]

abbrev pub metric : Text → Dict Text ℕ → ℕ
metric key m = elim (lookup key m) [ none ↦ 0 | some n ↦ n ]

unfoldable pub record_metric : RateLimitConfig → Text → Bool → RateLimitMetrics → RateLimitMetrics
unfolding count_up
record_metric config limit_type ok metrics =
    let counted =
      (if ok
        then record metrics { allowed = count_up limit_type metrics.allowed }
        else record metrics { rejected = count_up limit_type metrics.rejected }) in
    if config.enable_metrics then counted else metrics

unfoldable pub get_metrics : RateLimitMetrics → Dict Text ℕ
get_metrics metrics =
    map (λ p. (p.0 ++ codes "_allowed", p.1)) metrics.allowed
    ++ map (λ p. (p.0 ++ codes "_rejected", p.1)) metrics.rejected

unfoldable pub key_of : Text → Request → Text
unfolding get_client_id
key_of limit_type r = limit_type ++ codes ":" ++ get_client_id r

module _ {S : Type 0} (store : RateLimitStore S) (config : RateLimitConfig) where
  -- A request that the store cannot count.
  abbrev pub degraded : Decision
  degraded = if config.graceful_degradation then unchecked else unavailable

  -- The handler of `Middleware(limitType)` on one request, up to the call of the next handler.
  unfoldable pub middleware :
      Text → Request → ℕ → S → RateLimitMetrics → Decision × S × RateLimitMetrics
  middleware limit_type r now s metrics =
      let limit = get_limit config limit_type in
      let (counted, s') = store.increment (key_of limit_type r) limit.window now s in
      let checked : Decision × S × RateLimitMetrics = elim counted [
        | none ↦ (degraded, s', metrics)
        | some count ↦
            let seconds = limit.window / second in
            let headers : Headers = record {
              limit = limit.requests;
              remaining = limit.requests - count;
              reset = seconds;
            } in
            if ltb limit.requests count
            then (rejected headers seconds, s', record_metric config limit_type false metrics)
            else (allowed headers, s', record_metric config limit_type true metrics)
      ] in
      if store.is_healthy s then checked else (degraded, s, metrics)
