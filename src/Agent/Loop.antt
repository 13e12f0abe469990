-- ===== src/Agent/Loop.antt =====
-- internal/agent/orchestrator.go: the agentic loop. The provider is a function on requests and the
-- world; its cancellation and time-outs are among its errors. `OrchestratorConfig` is read for
-- `MaxToolCalls` alone.
pub mod Steps
pub mod Bounds
pub mod Exchanges
use syara_ai.Base.{
  ℕ, zero, suc, true, false, Option, none, some, List, [], ◌∷◌, ◌++◌, Text, codes, ℤ, pos_part,
}
use syara_ai.Tools.Registry.{Registry, ToolCall, ToolResult, result_of, execute}
use syara_ai.Llm.Provider.{
  ChatRequest, ChatResponse, get_tool_calls, has_tool_calls, build_assistant_message,
  build_tool_result_messages,
}

-- The two errors that `executeAgenticLoop` returns.
pub data LoopError : Type 0 where
  api_call_failed : Text → LoopError
  max_tool_calls_exceeded : LoopError

pub data Reply : Type 0 where
  ok : ChatResponse → Reply
  failed : Text → Reply

pub data Outcome : Type 0 where
  answered : ChatResponse → Outcome
  stopped : LoopError → Outcome

abbrev pub no_registry : ToolCall → ToolResult
no_registry call = record {
  tool_use_id = call.id;
  content = codes "Error: Tool registry not configured";
  is_error = true;
}

-- The request after a response with tool calls: the response, then the results.
abbrev pub follow_up : ChatRequest → ChatResponse → List ToolResult → ChatRequest
follow_up req resp results = record req {
  messages =
      (req.messages ++ build_assistant_message resp ∷ [])
      ++ build_tool_result_messages results ∷ [];
}

module _ {W : Type 0} (now : W → ℕ × W) where
  -- The body of the loop over one response's calls; a nil registry is `none`.
  unfoldable pub run_tool :
      Option (Registry W) → ToolCall → W → ToolResult × Option (Registry W) × W
  run_tool none call w = (no_registry call, none, w)
  run_tool (some r) call w =
      let (out, r', w') = execute now r call.name call.input w in
      (result_of call.id out, some r', w')

  unfoldable pub run_tools :
      Option (Registry W) → List ToolCall → W → List ToolResult × Option (Registry W) × W
  run_tools reg [] w = ([], reg, w)
  run_tools reg (call ∷ calls) w =
      let (res, reg', w') = run_tool reg call w in
      let (rest, reg'', w'') = run_tools reg' calls w' in (res ∷ rest, reg'', w'')

  module _ (chat : ChatRequest → W → Reply × W) where
    -- `k` rounds are left of the `MaxToolCalls`; `done` are the calls tracked so far.
    unfoldable pub loop :
        ℕ
        → ChatRequest
        → List ToolCall
        → Option (Registry W)
        → W
        → Outcome × List ToolCall × Option (Registry W) × W
    loop zero req done reg w = (stopped max_tool_calls_exceeded, done, reg, w)
    loop (suc k) req done reg w = elim (chat req w).0 [
      | failed e ↦ (stopped (api_call_failed e), done, reg, (chat req w).1)
      | ok resp ↦ elim (has_tool_calls resp) [
        | false ↦ (answered resp, done, reg, (chat req w).1)
        | true ↦
            let calls = get_tool_calls resp.content in
            let (results, reg', w') = run_tools reg calls (chat req w).1 in
            loop k (follow_up req resp results) (done ++ calls) reg' w'
      ]
    ]

    unfoldable pub execute_agentic_loop :
        ℤ
        → ChatRequest
        → Option (Registry W)
        → W
        → Outcome × List ToolCall × Option (Registry W) × W
    execute_agentic_loop max_tool_calls req reg w = loop (pos_part max_tool_calls) req [] reg w
