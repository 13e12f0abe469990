-- ===== src/Visual/Snippet.antt =====
-- internal/visual/citation_builder.go: the snippet of a chunk's content.
pub mod Spaces
pub mod Cut
use syara_ai.Base.{
  ℕ, zero, suc, ◌/◌, Bool, true, false, ◌&&◌, none, some, [], ◌∷◌, ◌++◌, map, ◌==◌, ltb,
  if◌then◌else◌, length, take, ℤ, is_nonpos, pos_part, Text, codes, index, last_index, trim_space,
}

-- `strings.Contains(s, "  ")`.
unfoldable pub has_double : Text → Bool
unfolding index
has_double s = elim (index s (codes "  ")) [ none ↦ false | some i ↦ true ]

-- `strings.ReplaceAll(s, "  ", " ")`.
unfoldable pub halve_doubles : Text → Text
halve_doubles [] = []
halve_doubles (c ∷ []) = c ∷ []
halve_doubles (c ∷ d ∷ s) =
    let after = halve_doubles s in
    let next = halve_doubles (d ∷ s) in if c == 32 && d == 32 then 32 ∷ after else c ∷ next

-- The loop that collapses spaces; each round shortens the text, so its length bounds the rounds.
unfoldable pub collapse : ℕ → Text → Text
collapse zero s = s
collapse (suc fuel) s =
    let rest = collapse fuel (halve_doubles s) in if has_double s then rest else s

-- A new line or a tab becomes a space.
abbrev pub blank : ℕ → ℕ
blank c = if c == 10 then 32 else if c == 9 then 32 else c

abbrev pub max_length : ℤ → ℕ
max_length n = if is_nonpos n then 300 else pos_part n

-- The cut at a word boundary in the second half, or at the limit.
unfoldable pub shorten : ℕ → Text → Text
unfolding last_index
shorten max content =
    let truncated = take max content in
    if ltb max (length content)
    then elim (last_index truncated (codes " ")) [
      | none ↦ truncated
      | some i ↦ if ltb (max / 2) i then take i truncated else truncated
    ]
      ++ codes "..."
    else content

unfoldable pub create_snippet : ℤ → Text → Text
unfolding trim_space shorten collapse
create_snippet snippet_max_length content =
    let cleaned = map blank (trim_space content) in
    shorten (max_length snippet_max_length) (collapse (length cleaned) cleaned)
