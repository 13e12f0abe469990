-- ===== src/Tools/Tests.antt =====
-- Runs of the tool registry at concrete inputs, and its theorems there.
use syara_ai.Base.{
  min, positive_or, ◌/◌, ℕ, ◌+◌, ◌≡◌, refl, none, some, List, [], ◌∷◌, map, ◌++◌, length, take,
  reverse, last, ◌==◌, if◌then◌else◌, codes, text_eq, IsDistinct, pos, lookup, insert,
  text_equality,
}
use syara_ai.Tools.Registry.{
  Tool, ToolCall, ToolDefinition, Registry, new_registry, register, unregister, get, list,
  get_tool_definitions, already_registered, not_found, max_executions, timed, execute_tool_calls,
  execute_tool_call, execute, get_recent_executions, get_execution_stats, track,
}
use syara_ai.Tools.Names.{Change, add, apply, get-register-unregister, apply-new_registry}
use syara_ai.Tools.Window.{call_all, execute_tool_calls-call_all}
use syara_ai.Tools.Recent.{get_recent_executions-reverse}
use syara_ai.Tools.Stats.{calls, successes, failures, durations, lookup-get_execution_stats}

-- The world is a clock, which each reading moves on.
abbrev tick : ℕ → ℕ × ℕ
tick w = (w, w + 1)

abbrev echo : Tool ℕ
echo = record {
  name = codes "echo";
  description = codes "repeats";
  input_schema = codes "{}";
  run = λ input w. ((input, none), w + 3);
}

abbrev broken : Tool ℕ
broken = record echo { name = codes "broken"; run = λ input w. (([], some (codes "down")), w) }

abbrev both : List (Change ℕ)
both = add echo ∷ add broken ∷ add echo ∷ []

abbrev start : Registry ℕ
start = record { tools = (codes "echo", echo) ∷ (codes "broken", broken) ∷ []; executions = [] }

abbrev three_calls : List ToolCall
three_calls =
    record { id = codes "a"; name = codes "echo"; input = codes "x" }
    ∷ record { id = codes "b"; name = codes "gone"; input = [] }
    ∷ record { id = codes "c"; name = codes "broken"; input = [] }
    ∷ []

both-start : apply both new_registry ≡ start
unfolding apply new_registry register lookup insert
both-start = refl

three_calls_content :
    map (λ r. r.content) (execute_tool_calls tick start three_calls 0).0
    ≡ codes "x"
      ∷ codes "Error: unknown tool: gone"
      ∷ codes "Error: tool broken execution failed: down"
      ∷ []
unfolding execute_tool_calls execute_tool_call execute timed lookup
three_calls_content = refl

get-register-unregister_example :
    ((register start echo).0 ≡ elim (get start (codes "echo")) [
      | none ↦ none
      | some _ ↦ some (already_registered (codes "echo"))
    ])
    × (get (register start echo).1 (codes "broken") ≡ elim (get start (codes "echo")) [
      | none ↦
          if text_eq (codes "echo") (codes "broken") then some echo else get start (codes "broken")
      | some _ ↦ get start (codes "broken")
    ])
    × ((unregister start (codes "echo")).0 ≡ elim (get start (codes "echo")) [
      | none ↦ some (not_found (codes "echo"))
      | some _ ↦ none
    ])
    × (get (unregister start (codes "echo")).1 (codes "broken")
        ≡ (if text_eq (codes "echo") (codes "broken") then none else get start (codes "broken")))
get-register-unregister_example = get-register-unregister start echo (codes "echo") (codes "broken")

apply-new_registry_example :
    let r = apply both new_registry in
    IsDistinct r.tools × (map (λ (d : ToolDefinition). d.name) (get_tool_definitions r) ≡ list r)
apply-new_registry_example = apply-new_registry both

execute_tool_calls-call_all_example : execute_tool_calls tick start three_calls 7 ≡ (
  (call_all tick start.tools three_calls 7).0,
  record start {
    executions = last max_executions ([] ++ (call_all tick start.tools three_calls 7).1);
  },
  (call_all tick start.tools three_calls 7).2,
)
execute_tool_calls-call_all_example = execute_tool_calls-call_all tick start three_calls 7 [] refl

abbrev busy : Registry ℕ
busy = (execute_tool_calls tick start three_calls 7).1

get_recent_executions-reverse_example :
    get_recent_executions busy (pos 1)
    ≡ some (
        take
          (min (length busy.executions) (positive_or (length busy.executions) (pos 1)))
          (reverse busy.executions))
get_recent_executions-reverse_example = get_recent_executions-reverse busy (pos 1)

-- A limit of 0 asks for all.
all_recent : get_recent_executions busy (pos 0) ≡ some (reverse busy.executions)
unfolding get_recent_executions execute_tool_calls execute_tool_call execute lookup track
all_recent = refl

lookup-get_execution_stats_example :
    let es = busy.executions in
    let name = codes "echo" in
    (lookup name (get_execution_stats busy) ≡ (
      if calls name es == 0
      then none
      else some (record {
        tool_name = name;
        total_calls = calls name es;
        success_count = successes name es;
        error_count = failures name es;
        total_duration = durations name es;
        avg_duration = durations name es / calls name es;
        success_rate = (successes name es, calls name es);
      })))
    × (calls name es ≡ successes name es + failures name es)
lookup-get_execution_stats_example = lookup-get_execution_stats busy (codes "echo")
