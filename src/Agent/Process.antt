-- ===== src/Agent/Process.antt =====
-- internal/agent/orchestrator.go: `Process`, which puts the retriever, the memory and the agentic loop
-- together. The retriever and the provider are parameters; durations and log lines are left out.
pub mod Saved
use syara_ai.Base.{
  ℕ, ◌/◌, ◌++◌, Bool, true, false, ◌&&◌, Option, none, some, List, [], ◌∷◌, ltb, ◌==◌,
  if◌then◌else◌, length, take, Text, codes, ℤ, pos,
}
use syara_ai.Tools.Registry.{Registry, ToolCall, ToolDefinition, get_tool_definitions}
use syara_ai.Llm.Provider.{ChatRequest, ChatResponse, Usage, get_text}
use syara_ai.Rag.Chunk.{RetrievedChunk}
use syara_ai.Agent.Memory.{Message, Memory, message, save_message, get_context_messages}
use syara_ai.Agent.Loop.{LoopError, Reply, Outcome, answered, stopped, execute_agentic_loop}
use syara_ai.Agent.Prompt.{Citation, build_messages, extract_citations_from_chunks}

pub record OrchestratorConfig : Type 0 where
  pub max_tokens : ℕ
  pub temperature : ℕ
  pub system_prompt : Text
  pub max_tool_calls : ℤ
  pub initial_retrieval : Bool
  pub initial_top_k : ℕ

-- The parts that a request changes; nil is `none`.
pub record Orchestrator (W : Type 0) : Type 0 where
  pub memory : Option (Memory W)
  pub tools : Option (Registry W)

-- The nil UUID is 0.
pub record AgentRequest : Type 0 where
  pub conversation_id : ℕ
  pub user_message : Text

-- The tokens used are the usage of the last response.
pub record AgentResponse (F : Type 0) : Type 0 where
  pub answer : Text
  pub conversation_id : ℕ
  pub citations : List (Citation F)
  pub tool_calls : List ToolCall
  pub retrieved_docs : List (RetrievedChunk F)
  pub tokens_used : Usage
  pub model : Text

pub data Processed (F : Type 0) : Type 0 where
  responded : AgentResponse F → Processed F
  failed : LoopError → Processed F

-- The title of a new conversation.
abbrev pub title_of : Text → Text
title_of msg = if ltb 50 (length msg) then take 47 msg ++ codes "..." else msg

-- What the orchestrator calls: the clock, the identifiers, the retriever with the number of chunks
-- (`none` is an error), the provider, and the record of a new conversation.
pub record Services (W F : Type 0) : Type 0 where
  pub now : W → ℕ × W
  pub new_uuid : W → ℕ × W
  pub retrieve : Option (Text → ℕ → W → Option (List (RetrievedChunk F)) × W)
  pub chat : ChatRequest → W → Reply × W
  pub supports_tools : Bool
  pub ensure_conversation : ℕ → Text → W → W

module _ {W F : Type 0} (s : Services W F) (config : OrchestratorConfig) where
  -- The conversation's identifier, a new one with its record where there is none yet.
  unfoldable pub ensure : Option (Memory W) → AgentRequest → W → ℕ × W
  ensure memory req w =
      let (id, w1) = s.new_uuid w in
      let w2 : W = elim memory [
        | none ↦ w1
        | some _ ↦ s.ensure_conversation id (title_of req.user_message) w1
      ] in
      if req.conversation_id == 0 then (id, w2) else (req.conversation_id, w)

  -- The history for the request, nothing where it fails.
  unfoldable pub load : Option (Memory W) → ℕ → W → List Message × Option (Memory W) × W
  load none id w = ([], none, w)
  load (some m) id w =
      let (fetched, m', w') = get_context_messages m id (pos (config.max_tokens / 2)) w in
      (elim fetched [ none ↦ [] | some msgs ↦ msgs ], some m', w')

  unfoldable pub initial_chunks : Text → W → List (RetrievedChunk F) × W
  initial_chunks question w = elim (if config.initial_retrieval then s.retrieve else none) [
    | none ↦ ([], w)
    | some retrieve ↦
        let (found, w') = retrieve question config.initial_top_k w in
        (elim found [ none ↦ [] | some chunks ↦ chunks ], w')
  ]

  unfoldable pub tool_definitions : Option (Registry W) → List ToolDefinition
  tool_definitions none = []
  tool_definitions (some r) = if s.supports_tools then get_tool_definitions r else []

  unfoldable pub initial_request :
      List Message → List (RetrievedChunk F) → Text → Option (Registry W) → ChatRequest
  unfolding tool_definitions
  initial_request history chunks question tools = record {
    messages = build_messages history chunks question;
    system_prompt = config.system_prompt;
    tools = tool_definitions tools;
    max_tokens = config.max_tokens;
    temperature = config.temperature;
    stop_sequences = [];
  }

  -- The two messages saved; the errors are only logged.
  unfoldable pub save_exchange : Option (Memory W) → ℕ → Text → Text → ℕ → W → Option (Memory W) × W
  save_exchange none id question answer started w = (none, w)
  save_exchange (some m) id question answer started w =
      let (uuid, w1) = s.new_uuid w in
      let (err, m', w2) =
        save_message s.new_uuid s.now m (message id (codes "user") question uuid started) w1 in
      let (uuid', w3) = s.new_uuid w2 in
      let (time, w4) = s.now w3 in
      let (err', m'', w5) =
        save_message s.new_uuid s.now m' (message id (codes "assistant") answer uuid' time) w4 in
      (some m'', w5)

  -- What follows the loop.
  unfoldable pub finish :
      ℕ
      → ℕ
      → Text
      → List (RetrievedChunk F)
      → Option (Memory W)
      → Outcome × List ToolCall × Option (Registry W) × W
      → Processed F × Orchestrator W × W
  finish started id question chunks memory (stopped e, calls, tools, w) =
      (failed e, record { memory = memory; tools = tools }, w)
  finish started id question chunks memory (answered resp, calls, tools, w) =
      let answer = get_text resp.content in
      let (memory', w') = save_exchange memory id question answer started w in
      (
        responded (record {
          answer = answer;
          conversation_id = id;
          citations = extract_citations_from_chunks chunks;
          tool_calls = calls;
          retrieved_docs = chunks;
          tokens_used = resp.usage;
          model = resp.model;
        }),
        record { memory = memory'; tools = tools },
        w',
      )

  unfoldable pub process : Orchestrator W → AgentRequest → W → Processed F × Orchestrator W × W
  process o req w =
      let (started, w0) = s.now w in
      let (id, w1) = ensure o.memory req w0 in
      let (history, memory, w2) = load o.memory id w1 in
      let (chunks, w3) = initial_chunks req.user_message w2 in
      let chat_req = initial_request history chunks req.user_message o.tools in
      finish started id req.user_message chunks memory
        (execute_agentic_loop s.now s.chat config.max_tool_calls chat_req o.tools w3)
