-- ===== src/Agent/Loop/Exchanges.antt =====
-- internal/agent/orchestrator.go: the requests that the agentic loop sends.
use syara_ai.Base.{
  ℕ, zero, suc, ◌≡◌, refl, ap, ap₂, ◌∙◌, Option, none, some, List, [], ◌∷◌, ◌++◌, map, inl, inr,
  Text, All, text_equality, ℤ, pos_part,
}
use syara_ai.Tools.Registry.{Registry, Attempt, ToolCall, ToolResult, result_of, execute}
use syara_ai.Llm.Provider.{
  ContentBlock, tool_result, user, assistant, Message, ChatRequest, ChatResponse, tool_result_block,
  get_tool_calls,
}
use syara_ai.Agent.Loop.Steps.{loop-failed, loop-answered, loop-after, loop-cases}
use syara_ai.Agent.Loop.{Reply, follow_up, run_tool, run_tools, loop, execute_agentic_loop}

-- The user message `u` answers the assistant message `a`: it holds tool results alone, one for each
-- tool call of `a`, in order, under the call's id.
pub record Answers (a u : Message) : Type 0 where
  pub asked : a.role ≡ assistant
  pub told : u.role ≡ user
  pub results_alone : All (λ (b : ContentBlock). b.kind ≡ tool_result) u.content
  pub ids :
      map (λ (b : ContentBlock). b.tool_use_id) u.content
      ≡ map (λ (c : ToolCall). c.id) (get_tool_calls a.content)

-- The conversation `ms` is `start` with answered assistant messages behind it.
pub data Exchange (start : List Message) : List Message → Type 0 where
  here : Exchange start start
  round :
      {ms : List Message} (a u : Message)
      → Answers a u
      → Exchange start ms
      → Exchange start ((ms ++ a ∷ []) ++ u ∷ [])

-- A request that differs from `req` in its messages alone, which extend those of `req` so.
pub record Extends (req next : ChatRequest) : Type 0 where
  pub exchange : Exchange req.messages next.messages
  pub rest : next ≡ record req { messages = next.messages }

result_blocks :
    (rs : List ToolResult)
    → All (λ (b : ContentBlock). b.kind ≡ tool_result) (map tool_result_block rs)
result_blocks [] = tt
result_blocks (r ∷ rs) = (refl, result_blocks rs)

block_ids :
    (rs : List ToolResult)
    → map (λ (b : ContentBlock). b.tool_use_id) (map tool_result_block rs)
      ≡ map (λ (r : ToolResult). r.tool_use_id) rs
block_ids [] = refl
block_ids (r ∷ rs) = ap (◌∷◌ r.tool_use_id) (block_ids rs)

result_of-id : (id : Text) (out : Attempt) → (result_of id out).tool_use_id ≡ id
result_of-id id (s, none) = refl
result_of-id id (s, some e) = refl

module _ {W : Type 0} (now : W → ℕ × W) where
  run_tool-id :
      (reg : Option (Registry W)) (call : ToolCall) (w : W)
      → (run_tool now reg call w).0.tool_use_id ≡ call.id
  unfolding run_tool
  run_tool-id none call w = refl
  run_tool-id (some r) call w = result_of-id call.id (execute now r call.name call.input w).0

  run_tools-ids :
      (reg : Option (Registry W)) (calls : List ToolCall) (w : W)
      → map (λ (r : ToolResult). r.tool_use_id) (run_tools now reg calls w).0
        ≡ map (λ (c : ToolCall). c.id) calls
  unfolding run_tools
  run_tools-ids reg [] w = refl
  run_tools-ids reg (call ∷ calls) w =
      ap₂ ◌∷◌ (run_tool-id reg call w)
        (run_tools-ids (run_tool now reg call w).1 calls (run_tool now reg call w).2)

  follow_up-Extends :
      (req next : ChatRequest) (resp : ChatResponse) (reg : Option (Registry W)) (w : W)
      → Extends req next
      → Extends req (follow_up next resp (run_tools now reg (get_tool_calls resp.content) w).0)
  follow_up-Extends req next resp reg w x =
      let calls = get_tool_calls resp.content in
      let results = (run_tools now reg calls w).0 in
      record {
        exchange =
            round _ _
              (record {
                asked = refl;
                told = refl;
                results_alone = result_blocks results;
                ids = block_ids results ∙ run_tools-ids reg calls w;
              })
              x.exchange;
        rest = ap (λ (n : ChatRequest). follow_up n resp results) x.rest;
      }

  module _ (chat chat' : ChatRequest → W → Reply × W) (req : ChatRequest)
      (agree : (next : ChatRequest) (w : W) → Extends req next → chat next w ≡ chat' next w) where
    loop_agree :
        (k : ℕ) (next : ChatRequest) (done : List ToolCall) (reg : Option (Registry W)) (w : W)
        → Extends req next
        → loop now chat k next done reg w ≡ loop now chat' k next done reg w
    loop_agree zero next done reg w x = unfold loop in refl
    loop_agree (suc k) next done reg w x =
        let same = agree next w x in
        elim (loop-cases now chat k next done reg w) [
          | inl (e, bad) ↦ cc (
            loop-failed now chat k next done reg w e bad,
            loop-failed now chat' k next done reg w e (rw (← same) bad),
            same,
          )
          | inr (inl (resp, good, last)) ↦ cc (
            loop-answered now chat k next done reg w resp good last,
            loop-answered now chat' k next done reg w resp (rw (← same) good) last,
            same,
          )
          | inr (inr (resp, good, more)) ↦
              let calls = get_tool_calls resp.content in
              let ran = run_tools now reg calls (chat next w).1 in
              let ih =
                loop_agree k (follow_up next resp ran.0) (done ++ calls) ran.1 ran.2
                  (follow_up-Extends req next resp reg (chat next w).1 x) in
              rw
                (
                  loop-after now chat k next done reg w resp good more,
                  loop-after now chat' k next done reg w resp (rw (← same) good) more,
                  ← same,
                )
                ih
        ]

    -- Let two providers agree on each request that has answered rounds behind the messages of the
    -- first one and is otherwise the same; a round is an assistant message, and a user message
    -- with nothing but one result for each of its tool calls, in order and under its id. Then the
    -- loop gives the same outcome with both: it sends no other requests.
    pub execute_agentic_loop_agree :
        (max_tool_calls : ℤ) (reg : Option (Registry W)) (w : W)
        → execute_agentic_loop now chat max_tool_calls req reg w
          ≡ execute_agentic_loop now chat' max_tool_calls req reg w
    unfolding execute_agentic_loop
    execute_agentic_loop_agree max_tool_calls reg w =
        loop_agree (pos_part max_tool_calls) req [] reg w (record { exchange = here; rest = refl })
