-- ===== src/Api/RateLimit/Redis.antt =====
-- internal/api/middleware/ratelimit.go: the Redis store. The client acts on a world `R`, in which time
-- passes by itself.
use syara_ai.Base.{
  ℕ, ◌+◌, ◌-◌, ◌*◌, Bool, true, false, ◌&&◌, Option, none, some, [], ◌∷◌, ◌++◌, leb, ◌==◌,
  if◌then◌else◌, Text, codes, is_space,
}
use syara_ai.Api.RateLimit.Store.{RateLimitStore}

-- `none` and `false` are errors.
pub record RedisClient (R : Type 0) : Type 0 where
  pub incr : Text → R → Option ℕ × R
  pub expire : Text → ℕ → R → Bool × R
  pub get : Text → R → Option Text × R
  pub ping : R → Bool × R

pub record RedisRateLimitStore (R : Type 0) : Type 0 where
  pub client : Option (RedisClient R)
  pub prefix : Text
  pub healthy : Bool

-- The decimal digits at the start, with the number read so far.
scan_digits : Text → ℕ → ℕ
scan_digits [] n = n
scan_digits (c ∷ s) n =
    let longer = scan_digits s (n * 10 + (c - b'0')) in
    if leb b'0' c && leb c b'9' then longer else n

-- `fmt.Sscanf(val, "%d", &count)` on an unsigned number, with 0 for an error.
scan : Text → ℕ
unfolding scan_digits
scan [] = 0
scan (c ∷ s) = let rest = scan s in if is_space c then rest else scan_digits (c ∷ s) 0

module _ {R : Type 0} where
  unfoldable pub new_redis_rate_limit_store :
      Option (RedisClient R) → Text → R → RedisRateLimitStore R × R
  new_redis_rate_limit_store none prefix r =
      (record { client = none; prefix = prefix; healthy = false }, r)
  new_redis_rate_limit_store (some client) prefix r =
      let (up, r') = client.ping r in
      (record { client = some client; prefix = prefix; healthy = up }, r')

  -- The client that is asked, if the store is healthy.
  abbrev pub usable : RedisRateLimitStore R → Option (RedisClient R)
  usable s = if s.healthy then s.client else none

  abbrev pub full_key : RedisRateLimitStore R → Text → Text
  full_key s key = s.prefix ++ (codes ":" ++ key)

  unfoldable pub increment : RedisRateLimitStore R → Text → ℕ → R → Option ℕ × R
  increment s key window r = elim (usable s) [
    | none ↦ (none, r)
    | some client ↦
        let (counted, r1) = client.incr (full_key s key) r in
        elim counted [
          | none ↦ (none, r1)
          | some count ↦
              if count == 1
              then (some count, (client.expire (full_key s key) window r1).1)
              else (some count, r1)
        ]
  ]

  unfoldable pub get_count : RedisRateLimitStore R → Text → R → Option ℕ × R
  unfolding scan
  get_count s key r = elim (usable s) [
    | none ↦ (none, r)
    | some client ↦
        let (found, r1) = client.get (full_key s key) r in
        (some (elim found [ none ↦ 0 | some val ↦ scan val ]), r1)
  ]

  abbrev pub is_healthy : RedisRateLimitStore R → Bool
  is_healthy s = elim (usable s) [ none ↦ false | some _ ↦ true ]

  abbrev pub redis_store : RedisRateLimitStore R → RateLimitStore R
  redis_store s = record {
    increment = λ key window now r. increment s key window r;
    get_count = λ key now r. get_count s key r;
    is_healthy = λ r. is_healthy s;
  }
