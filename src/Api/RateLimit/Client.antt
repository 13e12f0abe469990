-- ===== src/Api/RateLimit/Client.antt =====
-- internal/api/middleware/ratelimit.go: who a request is counted for.
use syara_ai.Base.{
  ℕ, ◌+◌, Bool, ◌&&◌, ◌||◌, not, Option, none, some, [], ◌∷◌, ◌==◌, if◌then◌else◌, take, drop, any,
  Text, codes, index, last_index, trim_space,
}

-- The headers X-Forwarded-For and X-Real-IP, empty where absent, and the remote address.
pub record Request : Type 0 where
  pub x_forwarded_for : Text
  pub x_real_ip : Text
  pub remote_addr : Text

abbrev contains : ℕ → Text → Bool
contains c s = any (◌==◌ c) s

-- `net.SplitHostPort`, of which the host is used: "host:port" or "[host]:port", `none` for an error.
bracketed : Text → ℕ → Option Text
unfolding index
bracketed s colon = elim (index s (codes "]")) [
  | none ↦ none
  | some end ↦
      if end + 1 == colon && not (contains b'[' (drop 1 s) || contains b']' (drop (end + 1) s))
      then some (drop 1 (take end s))
      else none
]

unfoldable pub split_host_port : Text → Option Text
unfolding last_index bracketed
split_host_port s = elim (last_index s (codes ":")) [
  | none ↦ none
  | some colon ↦ elim s [
    | [] ↦ none
    | c ∷ rest ↦
        if c == b'['
        then bracketed (c ∷ rest) colon
        else if contains b':' (take colon (c ∷ rest))
            || (contains b'[' (c ∷ rest) || contains b']' (c ∷ rest))
        then none
        else some (take colon (c ∷ rest))
  ]
]

unfoldable pub get_client_id : Request → Text
unfolding index trim_space split_host_port
get_client_id r = elim r.x_forwarded_for [
  | c ∷ cs ↦ elim (index (c ∷ cs) (codes ",")) [
    | some i ↦ trim_space (take i (c ∷ cs))
    | none ↦ trim_space (c ∷ cs)
  ]
  | [] ↦ elim r.x_real_ip [
    | c ∷ cs ↦ trim_space (c ∷ cs)
    | [] ↦ elim (split_host_port r.remote_addr) [ some ip ↦ ip | none ↦ r.remote_addr ]
  ]
]
