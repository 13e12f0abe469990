-- ===== src/Agent/Tests.antt =====
-- Runs of the agentic loop and of the conversation memory at concrete inputs, and their theorems
-- there.
use syara_ai.Base.{
  List, drop, decimal, to_upper, false, drop, decimal, to_upper, ℕ, ◌+◌, ◌*◌, ◌≤◌, ◌≡◌, ap, refl,
  true, Option, none, some, [], ◌∷◌, length, ltb, if◌then◌else◌, Bool-cases, inl, inr, codes,
  text_eq, pos, lookup, text_equality, nat_eq, arith,
}
use syara_ai.Tools.Registry.{Tool, ToolCall, Registry, execute, timed}
use syara_ai.Llm.Provider.{
  text_block, tool_use_block, StopReason, end_turn, user, new_text_message, ChatRequest,
  ChatResponse, get_tool_calls, has_tool_calls,
}
use syara_ai.Agent.Memory.{Memory}
use syara_ai.Agent.Process.{OrchestratorConfig, AgentRequest, Services}
use syara_ai.Rag.Chunk.{RetrievedChunk}
use syara_ai.Agent.Prompt.{build_context_string, extract_citations_from_chunks}
use syara_ai.Agent.Prompt.Citations.{AreCitations, extract_citations_from_chunks-AreCitations}
use syara_ai.Agent.Loop.{
  Reply, ok, failed, answered, stopped, max_tool_calls_exceeded, execute_agentic_loop, run_tool,
  run_tools, loop,
}
use syara_ai.Agent.Loop.Bounds.{
  tools_of, IsQuiet, execute_agentic_loop-made, execute_agentic_loop_always,
}
use syara_ai.Agent.Loop.Exchanges.{Extends, execute_agentic_loop_agree}

-- The world counts the calls of the model; the clock stands still.
abbrev still : ℕ → ℕ × ℕ
still w = (0, w)

abbrev echo : Tool ℕ
echo = record {
  name = codes "echo";
  description = codes "repeats";
  input_schema = codes "{}";
  run = λ input w. ((input, none), w);
}

abbrev registry : Option (Registry ℕ)
registry = some (record { tools = (codes "echo", echo) ∷ []; executions = [] })

abbrev echo_call : ToolCall
echo_call = record { id = codes "t1"; name = codes "echo"; input = codes "x" }

abbrev asking : ChatResponse
asking = record {
  content = tool_use_block echo_call ∷ tool_use_block echo_call ∷ [];
  stop_reason = StopReason.tool_use;
  usage = record { input_tokens = 1; output_tokens = 1 };
  model = codes "m";
}

abbrev answer : ChatResponse
answer = record asking { content = text_block (codes "done") ∷ []; stop_reason = end_turn }

abbrev question : ChatRequest
question = record {
  messages = new_text_message user (codes "hello") ∷ [];
  system_prompt = [];
  tools = [];
  max_tokens = 100;
  temperature = 0;
  stop_sequences = [];
}

-- A model that asks for tools in its first reply and then answers.
abbrev once : ChatRequest → ℕ → Reply × ℕ
once req w = (ok (if ltb (length req.messages) 3 then asking else answer), w + 1)

-- A model that always asks for tools.
abbrev forever : ChatRequest → ℕ → Reply × ℕ
forever req w = (ok asking, w + 1)

once_answered : (execute_agentic_loop still once (pos 5) question registry 0).0 ≡ answered answer
unfolding execute_agentic_loop loop run_tools run_tool execute timed lookup has_tool_calls
    get_tool_calls
once_answered = refl

registry-IsQuiet : IsQuiet still once (λ w. w) (λ req w. refl) (λ w. refl) (tools_of registry)
unfolding lookup
registry-IsQuiet name tool found input w = elim (Bool-cases (text_eq (codes "echo") name)) [
  | inl same ↦ ground (arith, found)
  | inr other ↦ ground (arith, found)
]

execute_agentic_loop-made_example :
    let out = execute_agentic_loop still once (pos 5) question registry 7 in
    (out.3 ≤ 7 + 5) × (out.0 ≡ stopped max_tool_calls_exceeded → out.3 ≡ 7 + 5)
execute_agentic_loop-made_example =
    execute_agentic_loop-made still once (λ w. w) (λ req w. refl) (λ w. refl) (pos 5) question
      registry 7 registry-IsQuiet

asking_has_calls : has_tool_calls asking ≡ true
unfolding has_tool_calls
asking_has_calls = refl

execute_agentic_loop_always_example :
    let out = execute_agentic_loop still forever (pos 3) question registry 0 in
    (out.0 ≡ stopped max_tool_calls_exceeded)
    × (length out.1 ≡ 3 * length (get_tool_calls asking.content))
execute_agentic_loop_always_example =
    execute_agentic_loop_always still forever asking (λ req w. refl) asking_has_calls (pos 3)
      question registry 0

-- A model that fails on requests with a system prompt.
abbrev once_or_fail : ChatRequest → ℕ → Reply × ℕ
once_or_fail req w = if text_eq req.system_prompt [] then once req w else (failed [], w)

once_agrees :
    (next : ChatRequest) (w : ℕ) → Extends question next → once next w ≡ once_or_fail next w
once_agrees next w x =
    let e : next.system_prompt ≡ [] = ap (λ (r : ChatRequest). r.system_prompt) x.rest in rw e refl

execute_agentic_loop_agree_example :
    execute_agentic_loop still once (pos 5) question registry 0
    ≡ execute_agentic_loop still once_or_fail (pos 5) question registry 0
execute_agentic_loop_agree_example =
    execute_agentic_loop_agree still once once_or_fail question once_agrees (pos 5) registry 0

-- A memory without a database, and no retriever.
abbrev empty_memory : Memory ℕ
empty_memory = record {
  db = none;
  cache = none;
  config = record { max_history_messages = 20; max_tokens = 8000; enable_cache = false };
  active = [];
}

abbrev services : Services ℕ ℕ
services = record {
  now = still;
  new_uuid = λ w. (7, w);
  retrieve = none;
  chat = once;
  supports_tools = true;
  ensure_conversation = λ id title w. w;
}

abbrev settings : OrchestratorConfig
settings = record {
  max_tokens = 4096;
  temperature = 300;
  system_prompt = [];
  max_tool_calls = pos 5;
  initial_retrieval = true;
  initial_top_k = 5;
}

abbrev asked : AgentRequest
asked = record { conversation_id = 3; user_message = codes "hello" }

abbrev found : List (RetrievedChunk ℕ)
found =
    record {
      id = codes "c1";
      document_id = codes "d1";
      content = codes "Riba is prohibited.";
      page_number = 2;
      section_title = [];
      similarity = 80;
      source_type = codes "bnm";
      document_title = codes "Policy";
      category = [];
      standard_num = [];
    }
    ∷ []

extract_citations_from_chunks-AreCitations_example :
    AreCitations 0 found (extract_citations_from_chunks found)
extract_citations_from_chunks-AreCitations_example =
    extract_citations_from_chunks-AreCitations found

context_string :
    drop 92 (build_context_string found)
    ≡ codes "### [Source 1] BNM: Policy\nPage: 2\n\nRiba is prohibited.\n\n---\n\n"
unfolding build_context_string decimal to_upper
context_string = refl
