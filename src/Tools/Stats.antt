-- ===== src/Tools/Stats.antt =====
-- internal/tools/registry.go: `GetExecutionStats`, against counts of the executions.
use syara_ai.Base.{
  ℕ, ◌+◌, ◌/◌, ◌≡◌, none, some, List, [], ◌∷◌, if◌then◌else◌, ◌==◌, Text, text_eq, text_eq_iff,
  Dict, lookup, insert, lookup-insert, lookup-map_values, text_equality, arith,
}
use syara_ai.Tools.Registry.{
  Registry, ToolExecution, ToolStats, fresh, note, stats_or_fresh, average, tally,
  get_execution_stats,
}

-- Sums over the executions of one tool.
pub total : (ToolExecution → ℕ) → Text → List ToolExecution → ℕ
total f name [] = 0
total f name (x ∷ xs) = (if text_eq x.tool_name name then f x else 0) + total f name xs

abbrev pub calls : Text → List ToolExecution → ℕ
calls = total (λ x. 1)

abbrev pub successes : Text → List ToolExecution → ℕ
successes = total (λ x. if x.success then 1 else 0)

abbrev pub failures : Text → List ToolExecution → ℕ
failures = total (λ x. if x.success then 0 else 1)

abbrev pub durations : Text → List ToolExecution → ℕ
durations = total (λ x. x.duration)

-- The statistics `s` grown by the executions `xs`.
abbrev grown : Text → ToolStats → List ToolExecution → ToolStats
grown name s xs = record s {
  total_calls = s.total_calls + calls name xs;
  success_count = s.success_count + successes name xs;
  error_count = s.error_count + failures name xs;
  total_duration = s.total_duration + durations name xs;
}

lookup-tally :
    (name : Text) (xs : List ToolExecution) (stats : Dict Text ToolStats)
    → lookup name (tally stats xs) ≡ elim (lookup name stats) [
      | some s ↦ some (grown name s xs)
      | none ↦ if calls name xs == 0 then none else some (grown name (fresh name) xs)
    ]
unfolding tally total
lookup-tally name [] stats = ground arith
lookup-tally name (x ∷ xs) stats = ground (
  arith,
  text_eq_iff x.tool_name name,
  lookup-insert x.tool_name name (note x (stats_or_fresh x.tool_name (lookup x.tool_name stats)))
      stats,
  lookup-tally name xs
      (insert x.tool_name (note x (stats_or_fresh x.tool_name (lookup x.tool_name stats))) stats),
)

tally-split :
    (name : Text) (xs : List ToolExecution) → calls name xs ≡ successes name xs + failures name xs
unfolding total
tally-split name [] = omega arith
tally-split name (x ∷ xs) = ground (arith, tally-split name xs)

-- A tool without executions has no statistics. Any other has its number of executions, of
-- successes and of failures (which add up), its total duration, the quotient of the durations by
-- the calls, and the success rate over the calls.
pub lookup-get_execution_stats :
    {W : Type 0} (r : Registry W) (name : Text)
    → let es = r.executions in
      (lookup name (get_execution_stats r) ≡ (
        if calls name es == 0
        then none
        else some (record {
          tool_name = name;
          total_calls = calls name es;
          success_count = successes name es;
          error_count = failures name es;
          total_duration = durations name es;
          avg_duration = durations name es / calls name es;
          success_rate = (successes name es, calls name es);
        })))
      × (calls name es ≡ successes name es + failures name es)
unfolding get_execution_stats
lookup-get_execution_stats r name =
    let es = r.executions in
    let counted = lookup-tally name es [] in
    let averaged = lookup-map_values average name (tally [] es) in
    (unfold lookup in ground arith, tally-split name es)
