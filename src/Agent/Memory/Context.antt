-- ===== src/Agent/Memory/Context.antt =====
-- internal/agent/memory.go: which messages `GetContextMessages` takes from the history, and which
-- topics `Summarize` lists.
use syara_ai.Base.{
  ℕ, ◌+◌, ◌≤◌, ◌<◌, ◌≡◌, refl, ◌∙◌, ap, some, List, [], ◌∷◌, ◌++◌, reverse, reverse-append,
  reverse-reverse, append-nil, reverse-append_cons, subst, ltb, if◌then◌else◌, ◌⊎◌, inl, inr,
  Bool-cases, ℤ, pos, is_nonpos, pos_part, arith,
}
use syara_ai.Agent.Memory.{Message, Memory, estimate_tokens, get_history, fit, get_context_messages}

abbrev pub tokens : List Message → ℕ
tokens [] = 0
tokens (m ∷ ms) = estimate_tokens m.content + tokens ms

-- `kept` is the longest end of `all` whose tokens stay in the budget.
pub record IsLongestEnd (budget : ℕ) (all kept : List Message) : Type 0 where
  pub dropped : List Message
  pub split : all ≡ dropped ++ kept
  pub in_budget : tokens kept ≤ budget
  pub longest :
      (dropped ≡ [])
      ⊎ ((older : List Message) × (m : Message) × (dropped ≡ older ++ m ∷ [])
          × (budget < tokens (m ∷ kept)))

fit-IsLongestEnd :
    (budget : ℕ) (newest_first : List Message) (total : ℕ) (kept : List Message)
    → total ≡ tokens kept
    → total ≤ budget
    → IsLongestEnd budget (reverse newest_first ++ kept) (fit budget newest_first total kept)
unfolding fit
fit-IsLongestEnd b [] total kept e h = record {
  dropped = [];
  split = refl;
  in_budget = ground arith;
  longest = inl refl;
}
fit-IsLongestEnd b (m ∷ older) total kept e h =
    let t = estimate_tokens m.content in
    elim (Bool-cases (ltb b (total + t))) [
      | inl over ↦ rw over (record {
        dropped = reverse older ++ m ∷ [];
        split = ap (λ ms. ms ++ kept) (reverse-append (m ∷ []) older);
        in_budget = ground arith;
        longest = inr (reverse older, m, refl, ground arith);
      })
      | inr within ↦
          rw (within, reverse-append_cons m older kept)
            (fit-IsLongestEnd b older (total + t) (m ∷ kept) (omega arith) (ground arith))
    ]

module _ {W : Type 0} where
  -- Where `GetHistory` gives messages, the context is their longest end whose estimated tokens
  -- stay in the limit that was asked for, or else in the configured one.
  pub get_context_messages-IsLongestEnd :
      (m : Memory W) (id : ℕ) (max_tokens : ℤ) (w : W) (msgs : List Message)
      → (get_history m id (pos m.config.max_history_messages) w).0 ≡ some msgs
      → (kept : List Message) × ((get_context_messages m id max_tokens w).0 ≡ some kept)
        × IsLongestEnd
            (if is_nonpos max_tokens then m.config.max_tokens else pos_part max_tokens)
            msgs
            kept
  unfolding get_context_messages
  get_context_messages-IsLongestEnd m id max_tokens w msgs h =
      let budget = if is_nonpos max_tokens then m.config.max_tokens else pos_part max_tokens in
      let kept = fit budget (reverse msgs) 0 [] in
      let whole : reverse (reverse msgs) ++ [] ≡ msgs =
        append-nil (reverse (reverse msgs)) ∙ reverse-reverse msgs in
      (
        kept,
        rw (h, get_context_messages) refl,
        subst (λ all. IsLongestEnd budget all kept) whole
            (fit-IsLongestEnd budget (reverse msgs) 0 [] refl (omega arith)),
      )
