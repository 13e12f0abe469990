-- ===== src/Llm/Tests.antt =====
-- Runs of the fallback for tool calls at concrete inputs, and its theorem there.
use syara_ai.Base.{◌≡◌, refl, Option, none, some, true, List, [], ◌∷◌, All, Text, codes, text_eq}
use syara_ai.Base.{if◌then◌else◌, trim_space}
use syara_ai.Tools.Registry.{ToolCall}
use syara_ai.Llm.Provider.{
  ChatResponse, StopReason, text_block, get_text, get_tool_calls, has_tool_calls,
}
use syara_ai.Llm.Fallback.{
  FallbackToolCall, parse_matches, parse_tool_calls_from_text, process_fallback_response, IsNamed,
  format_tool_results_for_prompt, get_tool_calls-process_fallback_response,
}

abbrev block : Text
block = codes "```tool_call\n{}\n```"

abbrev bad_block : Text
bad_block = codes "```tool_call\n?\n```"

-- The matches of the two blocks of the answer below, and of none in another text.
abbrev find_blocks : Text → List (Text × Text)
find_blocks [] = []
find_blocks (c ∷ s) = (bad_block, codes "?") ∷ (block, codes "{}") ∷ []

abbrev read_object : Text → Option FallbackToolCall
read_object s =
    if text_eq s (codes "{}")
    then some (record { name = codes "search"; input = codes "{}" })
    else none

abbrev answer : ChatResponse
answer = record {
  content = text_block (codes "Look: ```tool_call\n?\n``` ```tool_call\n{}\n```") ∷ [];
  stop_reason = StopReason.end_turn;
  usage = record { input_tokens = 7; output_tokens = 5 };
  model = codes "m";
}

abbrev search_call : ToolCall
search_call = record { id = codes "fallback_1"; name = codes "search"; input = codes "{}" }

abbrev left : Text
left = codes "Look: ```tool_call\n?\n```"

-- The block that is not JSON stays in the text; the call has the number of its match.
parsed_answer :
    parse_tool_calls_from_text find_blocks read_object (get_text answer.content)
    ≡ (search_call ∷ [], left)
unfolding parse_tool_calls_from_text parse_matches get_text trim_space
parsed_answer = refl

get_tool_calls-process_fallback_response_example :
    let processed = process_fallback_response find_blocks read_object answer in
    (get_tool_calls processed.content ≡ search_call ∷ [])
    × All IsNamed (search_call ∷ [])
    × (get_text processed.content ≡ left)
    × (has_tool_calls processed ≡ true)
    × (processed.usage ≡ answer.usage)
    × (processed.model ≡ answer.model)
get_tool_calls-process_fallback_response_example =
    get_tool_calls-process_fallback_response find_blocks read_object answer search_call [] left
      parsed_answer

one_result :
    format_tool_results_for_prompt
      (record { tool_use_id = codes "a"; content = codes "x"; is_error = true } ∷ [])
    ≡ codes
        "## Tool Results\n\n### Result for tool call `a`\n\n**Error**: x\n\n---\n\nPlease provide your response based on the tool results above.\n"
unfolding format_tool_results_for_prompt
one_result = refl
