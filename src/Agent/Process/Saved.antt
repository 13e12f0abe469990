-- ===== src/Agent/Process/Saved.antt =====
-- internal/agent/orchestrator.go: what `Process` leaves in the conversation.
use syara_ai.Base.{ℕ, ◌≡◌, Option, none, some, List, [], ◌∷◌, ◌++◌, map, Text, codes}
use syara_ai.Tools.Registry.{Registry}
use syara_ai.Agent.Memory.{Memory, active_of}
use syara_ai.Agent.Memory.History.{spoken}
use syara_ai.Agent.Prompt.{extract_citations_from_chunks}
use syara_ai.Agent.Process.{
  OrchestratorConfig, Orchestrator, Processed, responded, failed, Services,
}

-- The roles and contents of a conversation in memory, none without a memory.
abbrev pub remembered : {W : Type 0} → Option (Memory W) → ℕ → List (Text × Text)
remembered none id = []
remembered (some m) id = map spoken (active_of m id)

module _ {W F : Type 0} (s : Services W F) (config : OrchestratorConfig) where
  -- A failed request leaves the conversation as it was loaded; a response has the loaded
  -- conversation's identifier, leaves the question and its answer behind the conversation, and
  -- cites its documents.
  abbrev pub Leaves : ℕ → Text → List (Text × Text) → Processed F × Orchestrator W × W → Type 0
  Leaves id question old (failed e, o, w) = remembered o.memory id ≡ old
  Leaves id question old (responded r, o, w) =
      (r.conversation_id ≡ id)
      × (remembered o.memory id
          ≡ (old ++ (codes "user", question) ∷ []) ++ (codes "assistant", r.answer) ∷ [])
      × (r.citations ≡ extract_citations_from_chunks r.retrieved_docs)
