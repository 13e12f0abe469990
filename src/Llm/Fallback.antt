-- ===== src/Llm/Fallback.antt =====
-- internal/llm/fallback.go: tool calls in the text of a model without tools. The matches of the
-- regular expression and the reader of JSON are parameters.
use syara_ai.Base.{
  ℕ, suc, if◌then◌else◌, append-nil, All, Option-cases, inl, inr, ◌≢◌, ◌≡◌, refl, subst, ◌⊎◌, ◌∙◌,
  ap, true, false, Option, none, some, List, [], ◌∷◌, ◌++◌, map, length, drop, Text, codes,
  has_prefix, trim_space, decimal, concat,
}
use syara_ai.Tools.Registry.{ToolCall, ToolResult}
use syara_ai.Llm.Provider.{
  ChatResponse, StopReason, ContentBlock, text_block, tool_use_block, get_text, get_tool_calls,
  has_tool_calls,
}

pub record FallbackToolCall : Type 0 where
  pub name : Text
  pub input : Text

-- `strings.Replace(s, old, "", 1)`.
remove_first : Text → Text → Text
unfolding has_prefix
remove_first old [] = []
remove_first old (c ∷ s) =
    let rest = remove_first old s in
    elim (has_prefix (c ∷ s) old) [ true ↦ drop (length old) (c ∷ s) | false ↦ c ∷ rest ]

result_lines : List ToolResult → Text
result_lines [] = []
result_lines (r ∷ results) = concat (
    codes "### Result for tool call `"
    ∷ r.tool_use_id
    ∷ codes "`\n\n"
    ∷ (if r.is_error then codes "**Error**: " else [])
    ∷ r.content
    ∷ codes "\n\n"
    ∷ result_lines results
    ∷ [])

unfoldable pub format_tool_results_for_prompt : List ToolResult → Text
unfolding result_lines
format_tool_results_for_prompt [] = []
format_tool_results_for_prompt (r ∷ results) = concat (
    codes "## Tool Results\n\n"
    ∷ result_lines (r ∷ results)
    ∷ codes "---\n\n"
    ∷ codes "Please provide your response based on the tool results above.\n"
    ∷ [])

Text-cases : (s : Text) → (s ≡ []) ⊎ ((c : ℕ) × (rest : Text) × (s ≡ c ∷ rest))
Text-cases [] = inl refl
Text-cases (c ∷ s) = inr (c, s, refl)

-- The block of the text that is left, unless it is empty.
abbrev pub text_blocks : Text → List ContentBlock
text_blocks [] = []
text_blocks (c ∷ s) = text_block (c ∷ s) ∷ []

abbrev pub with_calls : ChatResponse → List ToolCall → Text → ChatResponse
with_calls response [] remaining = response
with_calls response (call ∷ calls) remaining = record {
  content = text_blocks remaining ++ map tool_use_block (call ∷ calls);
  stop_reason = StopReason.tool_use;
  usage = response.usage;
  model = response.model;
}

get_tool_calls-blocks : (calls : List ToolCall) → get_tool_calls (map tool_use_block calls) ≡ calls
unfolding get_tool_calls
get_tool_calls-blocks [] = refl
get_tool_calls-blocks (c ∷ calls) = ap (◌∷◌ c) (get_tool_calls-blocks calls)

get_text-blocks : (calls : List ToolCall) → get_text (map tool_use_block calls) ≡ []
unfolding get_text
get_text-blocks [] = refl
get_text-blocks (c ∷ calls) = get_text-blocks calls

get_text-with_calls :
    (remaining : Text) (calls : List ToolCall)
    → get_text (text_blocks remaining ++ map tool_use_block calls) ≡ remaining
unfolding get_text
get_text-with_calls [] calls = get_text-blocks calls
get_text-with_calls (c ∷ s) calls = ap (◌++◌ (c ∷ s)) (get_text-blocks calls) ∙ append-nil (c ∷ s)

get_tool_calls-with_calls :
    (remaining : Text) (calls : List ToolCall)
    → get_tool_calls (text_blocks remaining ++ map tool_use_block calls) ≡ calls
unfolding get_tool_calls
get_tool_calls-with_calls [] calls = get_tool_calls-blocks calls
get_tool_calls-with_calls (c ∷ s) calls = get_tool_calls-blocks calls

abbrev pub IsNamed : ToolCall → Type 0
IsNamed call = call.name ≢ []

module _ (find_all : Text → List (Text × Text)) (unmarshal : Text → Option FallbackToolCall) where
  -- The loop over the matches left, the first of which is match `i`: the calls and the text left.
  unfoldable pub parse_matches : List (Text × Text) → ℕ → Text → List ToolCall × Text
  unfolding trim_space decimal remove_first
  parse_matches [] i remaining = ([], remaining)
  parse_matches ((whole, json) ∷ matches) i remaining = elim (unmarshal (trim_space json)) [
    | none ↦ parse_matches matches (suc i) remaining
    | some parsed ↦ elim parsed.name [
      | [] ↦ parse_matches matches (suc i) remaining
      | c ∷ name ↦
          let id = codes "fallback_" ++ decimal i in
          let call : ToolCall = record { id = id; name = parsed.name; input = parsed.input } in
          let rest = parse_matches matches (suc i) (remove_first whole remaining) in
          (call ∷ rest.0, rest.1)
    ]
  ]

  unfoldable pub parse_tool_calls_from_text : Text → List ToolCall × Text
  unfolding parse_matches trim_space
  parse_tool_calls_from_text content =
      let parsed = parse_matches (find_all content) 0 content in (parsed.0, trim_space parsed.1)

  unfoldable pub process_fallback_response : ChatResponse → ChatResponse
  unfolding parse_tool_calls_from_text get_text
  process_fallback_response response =
      let parsed = parse_tool_calls_from_text (get_text response.content) in
      with_calls response parsed.0 parsed.1

  parse_matches-IsNamed :
      (matches : List (Text × Text)) (i : ℕ) (remaining : Text)
      → All IsNamed (parse_matches matches i remaining).0
  unfolding parse_matches
  parse_matches-IsNamed [] i remaining = tt
  parse_matches-IsNamed ((whole, json) ∷ matches) i remaining =
      elim (Option-cases (unmarshal (trim_space json))) [
        | inl wrong ↦ rw (wrong, parse_matches) (parse_matches-IsNamed matches (suc i) remaining)
        | inr (parsed, read) ↦ elim (Text-cases parsed.name) [
          | inl unnamed ↦
              rw (read, parse_matches)
                (rw (unnamed, parse_matches) (parse_matches-IsNamed matches (suc i) remaining))
          | inr (c, name, named) ↦
              rw (read, parse_matches)
                (rw (named, parse_matches)
                  ((λ h. cc), parse_matches-IsNamed matches (suc i) (remove_first whole remaining)))
        ]
      ]

  -- Where the text of a response has tool calls, the processed response holds those calls in their
  -- order, each with a name, as its tool calls, and the remaining text as its text; it asks for
  -- tools, and keeps the usage and the model.
  pub get_tool_calls-process_fallback_response :
      (response : ChatResponse) (call : ToolCall) (calls : List ToolCall) (remaining : Text)
      → parse_tool_calls_from_text (get_text response.content) ≡ (call ∷ calls, remaining)
      → let processed = process_fallback_response response in
        (get_tool_calls processed.content ≡ call ∷ calls)
        × All IsNamed (call ∷ calls)
        × (get_text processed.content ≡ remaining)
        × (has_tool_calls processed ≡ true)
        × (processed.usage ≡ response.usage)
        × (processed.model ≡ response.model)
  unfolding process_fallback_response has_tool_calls
  get_tool_calls-process_fallback_response response call calls remaining h =
      let kept = with_calls response (call ∷ calls) remaining in
      let e : process_fallback_response response ≡ kept =
        ap (λ parsed. with_calls response parsed.0 parsed.1) h in
      let named : All IsNamed (call ∷ calls) =
        subst (λ parsed. All IsNamed parsed.0) h
          (parse_matches-IsNamed (find_all (get_text response.content)) 0
            (get_text response.content)) in
      rw e (
        get_tool_calls-with_calls remaining (call ∷ calls),
        named,
        get_text-with_calls remaining (call ∷ calls),
        refl,
        refl,
        refl,
      )
