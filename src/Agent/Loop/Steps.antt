-- ===== src/Agent/Loop/Steps.antt =====
-- internal/agent/orchestrator.go: one round of the agentic loop, by what the model replies.
use syara_ai.Base.{
  ℕ, suc, ◌≡◌, refl, true, false, Bool-cases, Option, List, ◌++◌, ◌⊎◌, inl, inr, Text,
}
use syara_ai.Tools.Registry.{Registry, ToolCall}
use syara_ai.Llm.Provider.{ChatRequest, ChatResponse, get_tool_calls, has_tool_calls}
use syara_ai.Agent.Loop.{
  api_call_failed, Reply, ok, failed, Outcome, answered, stopped, follow_up, run_tools, loop,
}

module _ {W : Type 0} (now : W → ℕ × W) (chat : ChatRequest → W → Reply × W) where
  module _ (k : ℕ) (req : ChatRequest) (done : List ToolCall) (reg : Option (Registry W))
      (w : W) where
    pub loop-failed :
        (e : Text)
        → (chat req w).0 ≡ failed e
        → loop now chat (suc k) req done reg w
          ≡ (stopped (api_call_failed e), done, reg, (chat req w).1)
    unfolding loop
    loop-failed e bad = rw (bad, loop)

    pub loop-answered :
        (resp : ChatResponse)
        → (chat req w).0 ≡ ok resp
        → has_tool_calls resp ≡ false
        → loop now chat (suc k) req done reg w ≡ (answered resp, done, reg, (chat req w).1)
    unfolding loop
    loop-answered resp good last = rw (good, loop) (rw last)

    -- What follows a response with tool calls.
    abbrev pub after : ChatResponse → Outcome × List ToolCall × Option (Registry W) × W
    after resp =
        let calls = get_tool_calls resp.content in
        let (results, reg', w') = run_tools now reg calls (chat req w).1 in
        loop now chat k (follow_up req resp results) (done ++ calls) reg' w'

    pub loop-after :
        (resp : ChatResponse)
        → (chat req w).0 ≡ ok resp
        → has_tool_calls resp ≡ true
        → loop now chat (suc k) req done reg w ≡ after resp
    unfolding loop
    loop-after resp good more = rw (good, loop) (rw more)

    -- The three ways in which a round can go.
    pub loop-cases :
        ((e : Text) × ((chat req w).0 ≡ failed e))
        ⊎ ((resp : ChatResponse) × ((chat req w).0 ≡ ok resp) × (has_tool_calls resp ≡ false))
        ⊎ ((resp : ChatResponse) × ((chat req w).0 ≡ ok resp) × (has_tool_calls resp ≡ true))
    loop-cases = go (chat req w).0 refl
      where
        go :
            (r : Reply)
            → (chat req w).0 ≡ r
            → ((e : Text) × ((chat req w).0 ≡ failed e))
              ⊎ ((resp : ChatResponse) × ((chat req w).0 ≡ ok resp) × (has_tool_calls resp ≡ false))
              ⊎ ((resp : ChatResponse) × ((chat req w).0 ≡ ok resp) × (has_tool_calls resp ≡ true))
        go (failed e) p = inl (e, p)
        go (ok resp) p = elim (Bool-cases (has_tool_calls resp)) [
          | inl more ↦ inr (inr (resp, p, more))
          | inr last ↦ inr (inl (resp, p, last))
        ]
