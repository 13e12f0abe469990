-- ===== src/Llm/Provider.antt =====
-- internal/llm/provider.go and the message builders of internal/llm/anthropic.go. The package's
-- `ToolCall`, `ToolResult` and `ToolDefinition` have the fields of those in internal/tools, whose
-- records serve for both. A JSON value is the text of it; a temperature is in thousandths.
use syara_ai.Base.{ℕ, ◌+◌, ltb, Bool, true, false, ◌||◌, List, [], ◌∷◌, ◌++◌, map, length, Text}
use syara_ai.Tools.Registry.{ToolCall, ToolResult, ToolDefinition}

-- A stop reason that is none of the constants is kept as `other`.
pub data StopReason : Type 0 where
  end_turn tool_use max_tokens stop : StopReason
  other : Text → StopReason

pub data Role : Type 0 where
  user assistant system : Role

pub data ContentType : Type 0 where
  text tool_use tool_result : ContentType

pub record ContentBlock : Type 0 where
  pub kind : ContentType
  pub body : Text
  pub tool_use_id : Text
  pub tool_name : Text
  pub tool_input : Text
  pub result : Text
  pub is_error : Bool

pub record Message : Type 0 where
  pub role : Role
  pub content : List ContentBlock

pub record ChatRequest : Type 0 where
  pub messages : List Message
  pub system_prompt : Text
  pub tools : List ToolDefinition
  pub max_tokens : ℕ
  pub temperature : ℕ
  pub stop_sequences : List Text

pub record Usage : Type 0 where
  pub input_tokens : ℕ
  pub output_tokens : ℕ

pub record ChatResponse : Type 0 where
  pub content : List ContentBlock
  pub stop_reason : StopReason
  pub usage : Usage
  pub model : Text

-- A block with the fields of text alone, the others at their zero values; so for the next two.
abbrev pub text_block : Text → ContentBlock
text_block s = record {
  kind = text;
  body = s;
  tool_use_id = [];
  tool_name = [];
  tool_input = [];
  result = [];
  is_error = false;
}

abbrev pub tool_use_block : ToolCall → ContentBlock
tool_use_block c = record {
  kind = ContentType.tool_use;
  body = [];
  tool_use_id = c.id;
  tool_name = c.name;
  tool_input = c.input;
  result = [];
  is_error = false;
}

abbrev pub tool_result_block : ToolResult → ContentBlock
tool_result_block r = record {
  kind = tool_result;
  body = [];
  tool_use_id = r.tool_use_id;
  tool_name = [];
  tool_input = [];
  result = r.content;
  is_error = r.is_error;
}

abbrev pub new_text_message : Role → Text → Message
new_text_message role s = record { role = role; content = text_block s ∷ [] }

-- `GetText` of a message and of a response: both loop over the content alone.
unfoldable pub get_text : List ContentBlock → Text
get_text [] = []
get_text (b ∷ bs) = elim b.kind [ text ↦ b.body ++ get_text bs | _ ↦ get_text bs ]

-- `GetToolCalls` of a message and of a response.
unfoldable pub get_tool_calls : List ContentBlock → List ToolCall
get_tool_calls [] = []
get_tool_calls (b ∷ bs) = elim b.kind [
  | ContentType.tool_use ↦
      record { id = b.tool_use_id; name = b.tool_name; input = b.tool_input } ∷ get_tool_calls bs
  | _ ↦ get_tool_calls bs
]

abbrev pub is_tool_use : StopReason → Bool
is_tool_use StopReason.tool_use = true
is_tool_use _ = false

unfoldable pub has_tool_calls : ChatResponse → Bool
has_tool_calls r = is_tool_use r.stop_reason || ltb 0 (length (get_tool_calls r.content))

abbrev pub total_tokens : Usage → ℕ
total_tokens u = u.input_tokens + u.output_tokens

abbrev pub build_assistant_message : ChatResponse → Message
build_assistant_message r = record { role = assistant; content = r.content }

abbrev pub build_tool_result_messages : List ToolResult → Message
build_tool_result_messages rs = record { role = user; content = map tool_result_block rs }
