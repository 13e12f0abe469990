-- ===== src/Tools/Registry.antt =====
-- internal/tools/registry.go: the data and the methods of the tool registry. A tool's effects and
-- the clock act on a world `W`. Each method holds its mutex, so it is one step. Log lines are left
-- out, and so is the context, whose cancellation the tool sees through the world.
use syara_ai.Base.{
  ℕ, zero, suc, ◌+◌, ◌-◌, ◌/◌, Bool, true, false, ◌||◌, Option, none, some, List, [], ◌∷◌, ◌++◌,
  map, ltb, leb, if◌then◌else◌, length, get_elem?, drop, Text, codes, Dict, keys, lookup, insert,
  remove, ℤ, is_nonpos, pos_part, text_equality,
}

-- A Go pair `(string, error)`.
abbrev pub Attempt : Type 0
Attempt = Text × Option Text

pub record Tool (W : Type 0) : Type 0 where
  pub name : Text
  pub description : Text
  pub input_schema : Text
  pub run : Text → W → Attempt × W

pub record ToolDefinition : Type 0 where
  pub name : Text
  pub description : Text
  pub input_schema : Text

pub record ToolCall : Type 0 where
  pub id : Text
  pub name : Text
  pub input : Text

pub record ToolResult : Type 0 where
  pub tool_use_id : Text
  pub content : Text
  pub is_error : Bool

pub record ToolExecution : Type 0 where
  pub tool_name : Text
  pub input : Text
  pub output : Text
  pub duration : ℕ
  pub error : Text
  pub executed_at : ℕ
  pub success : Bool

pub record Registry (W : Type 0) : Type 0 where
  pub tools : Dict Text (Tool W)
  pub executions : List ToolExecution

pub record ToolStats : Type 0 where
  pub tool_name : Text
  pub total_calls : ℕ
  pub success_count : ℕ
  pub error_count : ℕ
  pub total_duration : ℕ
  pub avg_duration : ℕ
  -- The quotient `float64(s.SuccessCount) / float64(s.TotalCalls)` by its two operands.
  pub success_rate : ℕ × ℕ

abbrev pub already_registered : Text → Text
already_registered name = codes "tool already registered: " ++ name

abbrev pub not_found : Text → Text
not_found name = codes "tool not found: " ++ name

abbrev pub unknown_tool : Text → Text
unknown_tool name = codes "unknown tool: " ++ name

abbrev pub execution_failed : Text → Text → Text
execution_failed name err = codes "tool " ++ (name ++ (codes " execution failed: " ++ err))

-- The bound that `trackExecution` keeps.
abbrev pub max_executions : ℕ
max_executions = 1000

unfoldable pub new_registry : {W : Type 0} → Registry W
new_registry = record { tools = []; executions = [] }

unfoldable pub track : List ToolExecution → ToolExecution → List ToolExecution
track es x = if leb max_executions (length es) then drop 1 es ++ x ∷ [] else es ++ x ∷ []

-- What the caller gets from a tool's outcome.
abbrev pub reply : Text → Attempt → Attempt
reply name (out, none) = (out, none)
reply name (out, some err) = ([], some (execution_failed name err))

abbrev pub result_of : Text → Attempt → ToolResult
result_of id (out, none) = record { tool_use_id = id; content = out; is_error = false }
result_of id (out, some err) = record {
  tool_use_id = id;
  content = codes "Error: " ++ err;
  is_error = true;
}

-- The loop of `GetRecentExecutions` with `k` rounds left; `none` is a panic on the index.
unfoldable pub gather : List ToolExecution → ℕ → ℕ → Option (List ToolExecution)
gather es zero i = some []
gather es (suc k) i = elim (if ltb i (length es) then get_elem? es (length es - 1 - i) else none) [
  | none ↦ none
  | some x ↦ elim (gather es k (i + 1)) [ none ↦ none | some xs ↦ some (x ∷ xs) ]
]

abbrev pub clamp_limit : ℤ → ℕ → ℕ
clamp_limit limit n = if is_nonpos limit || ltb n (pos_part limit) then n else pos_part limit

abbrev pub definition : {W : Type 0} → Tool W → ToolDefinition
definition tool = record {
  name = tool.name;
  description = tool.description;
  input_schema = tool.input_schema;
}

module _ {W : Type 0} where
  -- The error that the method returns, if any, beside the registry.
  unfoldable pub register : Registry W → Tool W → Option Text × Registry W
  register r tool = elim (lookup tool.name r.tools) [
    | some _ ↦ (some (already_registered tool.name), r)
    | none ↦ (none, record r { tools = insert tool.name tool r.tools })
  ]

  unfoldable pub unregister : Registry W → Text → Option Text × Registry W
  unregister r name = elim (lookup name r.tools) [
    | none ↦ (some (not_found name), r)
    | some _ ↦ (none, record r { tools = remove name r.tools })
  ]

  unfoldable pub get : Registry W → Text → Option (Tool W)
  get r name = lookup name r.tools

  unfoldable pub list : Registry W → List Text
  list r = keys r.tools

  unfoldable pub count : Registry W → ℕ
  count r = length r.tools

  unfoldable pub get_tool_definitions : Registry W → List ToolDefinition
  get_tool_definitions r = map (λ p. definition p.1) r.tools

  unfoldable pub clear_executions : Registry W → Registry W
  clear_executions r = record r { executions = [] }

  module _ (now : W → ℕ × W) where
    -- A run of the tool between two readings of the clock: its outcome, the record of it, and the
    -- world after it.
    unfoldable pub timed : Tool W → Text → Text → W → Attempt × ToolExecution × W
    timed tool name input w =
        let (start, w1) = now w in
        let (out, w2) = tool.run input w1 in
        let (stop, w3) = now w2 in
        (
          out,
          record {
            tool_name = name;
            input = input;
            output = out.0;
            duration = stop - start;
            error = elim out.1 [ none ↦ [] | some err ↦ err ];
            executed_at = start;
            success = elim out.1 [ none ↦ true | some err ↦ false ];
          },
          w3,
        )

    unfoldable pub execute : Registry W → Text → Text → W → Attempt × Registry W × W
    execute r name input w = elim (lookup name r.tools) [
      | none ↦ (([], some (unknown_tool name)), r, w)
      | some tool ↦
          let (out, x, w') = timed tool name input w in
          (reply name out, record r { executions = track r.executions x }, w')
    ]

    unfoldable pub execute_tool_call : Registry W → ToolCall → W → ToolResult × Registry W × W
    execute_tool_call r call w =
        let (out, r', w') = execute r call.name call.input w in (result_of call.id out, r', w')

    unfoldable pub execute_tool_calls :
        Registry W → List ToolCall → W → List ToolResult × Registry W × W
    execute_tool_calls r [] w = ([], r, w)
    execute_tool_calls r (call ∷ calls) w =
        let (res, r', w') = execute_tool_call r call w in
        let (rest, r'', w'') = execute_tool_calls r' calls w' in (res ∷ rest, r'', w'')

  unfoldable pub get_recent_executions : Registry W → ℤ → Option (List ToolExecution)
  unfolding gather
  get_recent_executions r limit = gather r.executions (clamp_limit limit (length r.executions)) 0

abbrev pub fresh : Text → ToolStats
fresh name = record {
  tool_name = name;
  total_calls = 0;
  success_count = 0;
  error_count = 0;
  total_duration = 0;
  avg_duration = 0;
  success_rate = (0, 0);
}

-- The first loop's body on the statistics of the execution's tool.
abbrev pub note : ToolExecution → ToolStats → ToolStats
note x s = record s {
  total_calls = s.total_calls + 1;
  total_duration = s.total_duration + x.duration;
  success_count = if x.success then s.success_count + 1 else s.success_count;
  error_count = if x.success then s.error_count else s.error_count + 1;
}

abbrev pub stats_or_fresh : Text → Option ToolStats → ToolStats
stats_or_fresh name none = fresh name
stats_or_fresh name (some s) = s

-- The first loop, over the executions.
unfoldable pub tally : Dict Text ToolStats → List ToolExecution → Dict Text ToolStats
tally stats [] = stats
tally stats (x ∷ xs) =
    tally
      (insert x.tool_name (note x (stats_or_fresh x.tool_name (lookup x.tool_name stats))) stats) xs

-- The second loop's body.
abbrev pub average : ToolStats → ToolStats
average s =
    if ltb 0 s.total_calls
    then record s {
      avg_duration = s.total_duration / s.total_calls;
      success_rate = (s.success_count, s.total_calls);
    }
    else s

unfoldable pub get_execution_stats : {W : Type 0} → Registry W → Dict Text ToolStats
unfolding tally
get_execution_stats r = map (λ p. (p.0, average p.1)) (tally [] r.executions)
