-- ===== src/Tools/Recent.antt =====
-- internal/tools/registry.go: `GetRecentExecutions`.
use syara_ai.Base.{
  pos, negsuc, min, positive_or, ℕ, zero, suc, ◌+◌, ◌≤◌, ◌<◌, ◌≡◌, refl, sym, ◌∙◌, ap, some, List,
  length, take, drop, reverse, get_elem?-reverse, get_elem?-drop, length-reverse, ℤ, arith,
}
use syara_ai.Tools.Registry.{Registry, ToolExecution, gather, clamp_limit, get_recent_executions}

gather-take :
    (es : List ToolExecution) (k i : ℕ)
    → i + k ≤ length es
    → gather es k i ≡ some (take k (drop i (reverse es)))
unfolding gather
gather-take es zero i h = refl
gather-take es (suc k) i h =
    let (x, found, step) = get_elem?-drop i (reverse es) (omega (arith, length-reverse es)) in
    let e = sym (get_elem?-reverse es i (omega arith)) ∙ found in
    let e' : i + 1 ≡ suc i = omega arith in
    let ih = gather-take es k (i + 1) (omega arith) in
    let ih' : gather es k (i + 1) ≡ some (take k (drop (suc i) (reverse es))) =
      ih ∙ ap (λ j. some (take k (drop j (reverse es)))) e' in
    let bound : i < length es = omega arith in ground (arith, ap (take (suc k)) step)

clamp_limit-positive_or : (limit : ℤ) (n : ℕ) → clamp_limit limit n ≡ min n (positive_or n limit)
clamp_limit-positive_or (pos zero) n = omega arith
clamp_limit-positive_or (pos (suc k)) n = ground arith
clamp_limit-positive_or (negsuc k) n = omega arith

-- The most recent executions come newest first, as many as asked for and all where the limit is
-- not positive or too large; no index is out of range.
pub get_recent_executions-reverse :
    {W : Type 0} (r : Registry W) (limit : ℤ)
    → let n = length r.executions in
      get_recent_executions r limit
      ≡ some (take (min n (positive_or n limit)) (reverse r.executions))
unfolding get_recent_executions
get_recent_executions-reverse r limit =
    let n = length r.executions in
    gather-take r.executions (clamp_limit limit n) 0 (ground arith)
    ∙ ap (λ k. some (take k (reverse r.executions))) (clamp_limit-positive_or limit n)
