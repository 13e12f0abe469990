-- ===== src/Agent/Loop/Bounds.antt =====
-- internal/agent/orchestrator.go: how often the agentic loop calls the model, and how it ends.
use syara_ai.Base.{
  ℕ, zero, suc, ◌+◌, ◌*◌, ◌≤◌, ◌≡◌, refl, ◌∙◌, true, Option, none, some, List, [], ◌∷◌, ◌++◌,
  length, Text, inl, inr, Option-cases, Dict, lookup, text_equality, ℤ, pos_part, length-append,
  arith,
}
use syara_ai.Tools.Registry.{Registry, Tool, ToolCall, execute, timed}
use syara_ai.Llm.Provider.{ChatRequest, ChatResponse, get_tool_calls, has_tool_calls}
use syara_ai.Agent.Loop.Steps.{loop-failed, loop-answered, loop-after, loop-cases}
use syara_ai.Agent.Loop.{
  max_tool_calls_exceeded, Reply, ok, stopped, follow_up, run_tool, run_tools, loop,
  execute_agentic_loop,
}

abbrev pub tools_of : {W : Type 0} → Option (Registry W) → Dict Text (Tool W)
tools_of none = []
tools_of (some r) = r.tools

module _ {W : Type 0} (now : W → ℕ × W) (chat : ChatRequest → W → Reply × W) (made : W → ℕ)
    (chat_counts : (req : ChatRequest) (w : W) → made (chat req w).1 ≡ made w + 1)
    (now_quiet : (w : W) → made (now w).1 ≡ made w) where
  -- The tools themselves do not call the model.
  abbrev pub IsQuiet : Dict Text (Tool W) → Type 0
  IsQuiet tools =
      (name : Text) (tool : Tool W)
      → lookup name tools ≡ some tool
      → (input : Text) (w : W) → made (tool.run input w).1 ≡ made w

  run_tool_quiet :
      (reg : Option (Registry W)) (call : ToolCall) (w : W)
      → IsQuiet (tools_of reg)
      → (made (run_tool now reg call w).2 ≡ made w)
        × (tools_of (run_tool now reg call w).1 ≡ tools_of reg)
  unfolding run_tool execute timed
  run_tool_quiet none call w q = (refl, refl)
  run_tool_quiet (some r) call w q = elim (Option-cases (lookup call.name r.tools)) [
    | inl absent ↦ ground arith
    | inr (tool, found) ↦ ground (
      arith,
      now_quiet w,
      q call.name tool found call.input (now w).1,
      now_quiet (tool.run call.input (now w).1).1,
    )
  ]

  run_tools_quiet :
      (reg : Option (Registry W)) (calls : List ToolCall) (w : W)
      → IsQuiet (tools_of reg)
      → (made (run_tools now reg calls w).2 ≡ made w)
        × (tools_of (run_tools now reg calls w).1 ≡ tools_of reg)
  unfolding run_tools
  run_tools_quiet reg [] w q = (refl, refl)
  run_tools_quiet reg (call ∷ calls) w q =
      let (count, same) = run_tool_quiet reg call w q in
      let (count', same') =
        run_tools_quiet (run_tool now reg call w).1 calls (run_tool now reg call w).2 (rw same q) in
      (count' ∙ count, same' ∙ same)

  loop-made :
      (k : ℕ) (req : ChatRequest) (done : List ToolCall) (reg : Option (Registry W)) (w : W)
      → IsQuiet (tools_of reg)
      → (made (loop now chat k req done reg w).3 ≤ made w + k)
        × ((loop now chat k req done reg w).0 ≡ stopped max_tool_calls_exceeded
            → made (loop now chat k req done reg w).3 ≡ made w + k)
  loop-made zero req done reg w q = unfold loop in omega arith
  loop-made (suc k) req done reg w q = elim (loop-cases now chat k req done reg w) [
    | inl (e, bad) ↦
        rw (loop-failed now chat k req done reg w e bad) (ground (arith, chat_counts req w))
    | inr (inl (resp, good, last)) ↦
        rw (loop-answered now chat k req done reg w resp good last)
          (ground (arith, chat_counts req w))
    | inr (inr (resp, good, more)) ↦
        let calls = get_tool_calls resp.content in
        let w1 = (chat req w).1 in
        let ran = run_tools now reg calls w1 in
        let (count, same) = run_tools_quiet reg calls w1 q in
        let ih = loop-made k (follow_up req resp ran.0) (done ++ calls) ran.1 ran.2 (rw same q) in
        rw (loop-after now chat k req done reg w resp good more)
          (ground (arith, chat_counts req w), λ e. ground (arith, chat_counts req w, ih.1 e))
  ]

  -- The loop calls the model at most `MaxToolCalls` times, where the clock and the tools do not
  -- call it; it gives up only after exactly that many calls. A negative maximum counts as 0.
  pub execute_agentic_loop-made :
      (max_tool_calls : ℤ) (req : ChatRequest) (reg : Option (Registry W)) (w : W)
      → IsQuiet (tools_of reg)
      → let out = execute_agentic_loop now chat max_tool_calls req reg w in
        (made out.3 ≤ made w + pos_part max_tool_calls)
        × (out.0 ≡ stopped max_tool_calls_exceeded → made out.3 ≡ made w + pos_part max_tool_calls)
  unfolding execute_agentic_loop
  execute_agentic_loop-made max_tool_calls req reg w q =
      loop-made (pos_part max_tool_calls) req [] reg w q

module _ {W : Type 0} (now : W → ℕ × W) (chat : ChatRequest → W → Reply × W) (resp : ChatResponse)
    (always : (req : ChatRequest) (w : W) → (chat req w).0 ≡ ok resp)
    (more : has_tool_calls resp ≡ true) where
  abbrev calls_each : ℕ
  calls_each = length (get_tool_calls resp.content)

  loop_always :
      (k : ℕ) (req : ChatRequest) (done : List ToolCall) (reg : Option (Registry W)) (w : W)
      → ((loop now chat k req done reg w).0 ≡ stopped max_tool_calls_exceeded)
        × (length (loop now chat k req done reg w).1 ≡ length done + k * calls_each)
  loop_always zero req done reg w = unfold loop in (refl, omega arith)
  loop_always (suc k) req done reg w =
      let calls = get_tool_calls resp.content in
      let ran = run_tools now reg calls (chat req w).1 in
      let ih = loop_always k (follow_up req resp ran.0) (done ++ calls) ran.1 ran.2 in
      rw (loop-after now chat k req done reg w resp (always req w) more)
        (ih.0, grind (arith, ih.1, length-append done calls))

  -- Against a model that always replies with the same tool calls the loop stops with the error of
  -- the maximum, and has then run the maximum times the calls of one reply: the maximum bounds the
  -- rounds and not the tool calls.
  pub execute_agentic_loop_always :
      (max_tool_calls : ℤ) (req : ChatRequest) (reg : Option (Registry W)) (w : W)
      → let out = execute_agentic_loop now chat max_tool_calls req reg w in
        (out.0 ≡ stopped max_tool_calls_exceeded)
        × (length out.1 ≡ pos_part max_tool_calls * length (get_tool_calls resp.content))
  unfolding execute_agentic_loop
  execute_agentic_loop_always max_tool_calls req reg w =
      let (out, total) = loop_always (pos_part max_tool_calls) req [] reg w in
      (out, omega (arith, total))
