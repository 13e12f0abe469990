-- ===== src/Tools/Window.antt =====
-- internal/tools/registry.go: running tool calls, against a log that is never cut.
use syara_ai.Base.{
  ℕ, ◌≤◌, min, ◌≡◌, refl, sym, ap, ◌∙◌, inl, inr, none, some, List, [], ◌∷◌, ◌++◌, length, last,
  leb, Bool-cases, Option-cases, Text, Dict, lookup, text_equality, last_of_le, last-append,
  drop_one-last, length-last, append-nil, append_assoc, arith,
}
use syara_ai.Tools.Registry.{
  Registry, Tool, ToolCall, ToolResult, ToolExecution, unknown_tool, max_executions, track, timed,
  reply, result_of, execute, execute_tool_call, execute_tool_calls,
}

window_length :
    (h es : List ToolExecution)
    → es ≡ last max_executions h
    → length es ≡ min max_executions (length h)
window_length h es e = ap length e ∙ length-last max_executions h

track_window :
    (h es : List ToolExecution) (x : ToolExecution)
    → es ≡ last max_executions h
    → track es x ≡ last max_executions (h ++ x ∷ [])
unfolding track
track_window h es x e = elim (Bool-cases (leb max_executions (length es))) [
  | inl full ↦
      rw (full, last-append 999 h x, e)
        (ap (λ l. l ++ x ∷ []) (drop_one-last 999 h (ground (arith, window_length h es e))))
  | inr room ↦
      let short : length h ≤ 999 = ground (arith, window_length h es e) in
      rw (room, last-append 999 h x, e)
        (ap (λ l. l ++ x ∷ [])
          (last_of_le max_executions h (omega arith) ∙ sym (last_of_le 999 h short)))
]

module _ {W : Type 0} (now : W → ℕ × W) where
  -- One call against the tools alone: its result, what it logs, and the world after it.
  pub call_once : Dict Text (Tool W) → ToolCall → W → ToolResult × List ToolExecution × W
  call_once tools call w = elim (lookup call.name tools) [
    | none ↦ (result_of call.id ([], some (unknown_tool call.name)), [], w)
    | some tool ↦
        let (out, x, w') = timed now tool call.name call.input w in
        (result_of call.id (reply call.name out), x ∷ [], w')
  ]

  -- The same for a list of calls, in order, with the whole log.
  pub call_all : Dict Text (Tool W) → List ToolCall → W → List ToolResult × List ToolExecution × W
  call_all tools [] w = ([], [], w)
  call_all tools (call ∷ calls) w =
      let (res, log, w') = call_once tools call w in
      let (rest, log', w'') = call_all tools calls w' in (res ∷ rest, log ++ log', w'')

  execute_tool_call-call_once :
      (r : Registry W) (call : ToolCall) (w : W) (h : List ToolExecution)
      → r.executions ≡ last max_executions h
      → execute_tool_call now r call w ≡ (
        (call_once r.tools call w).0,
        record r { executions = last max_executions (h ++ (call_once r.tools call w).1) },
        (call_once r.tools call w).2,
      )
  unfolding execute_tool_call execute call_once
  execute_tool_call-call_once r call w h e = elim (Option-cases (lookup call.name r.tools)) [
    | inl absent ↦ ground (arith, append-nil h)
    | inr (tool, found) ↦
        ground (arith, track_window h r.executions (timed now tool call.name call.input w).1 e)
  ]

  -- Running calls through a registry whose executions are the last 1000 of a log: one result for
  -- each call, in order, exactly as the tools alone give it; the executions are then the last 1000
  -- of the log with the runs of known tools appended; the tools stay as they were.
  pub execute_tool_calls-call_all :
      (r : Registry W) (calls : List ToolCall) (w : W) (h : List ToolExecution)
      → r.executions ≡ last max_executions h
      → execute_tool_calls now r calls w ≡ (
        (call_all r.tools calls w).0,
        record r { executions = last max_executions (h ++ (call_all r.tools calls w).1) },
        (call_all r.tools calls w).2,
      )
  unfolding execute_tool_calls call_all
  execute_tool_calls-call_all r [] w h e = ground (arith, append-nil h)
  execute_tool_calls-call_all r (call ∷ calls) w h e =
      let log = h ++ (call_once r.tools call w).1 in
      let step = execute_tool_call-call_once r call w h e in
      let ih =
        execute_tool_calls-call_all (record r { executions = last max_executions log }) calls
          (call_once r.tools call w).2 log refl in
      rw step (rw ih (rw append_assoc refl))
