-- ===== src/Visual/Snippet/Spaces.antt =====
-- internal/visual/citation_builder.go: what the loop over double spaces leaves.
use syara_ai.Base.{
  ℕ, zero, suc, ◌≤◌, ◌<◌, ◌≡◌, inl, inr, refl, sym, ap, ◌∙◌, Bool, true, false, ◌&&◌, ◌||◌, [], ◌∷◌,
  ◌==◌, if◌then◌else◌, Bool-cases, Option-cases, length, Text, codes, text_equality, arith,
}
use syara_ai.Base.{index, has_prefix}
use syara_ai.Visual.Snippet.{has_double, halve_doubles, collapse, Bool, Text, index, ℕ, length, ◌∷◌}

-- The text without each space that follows a space.
unfoldable pub single_spaced : Bool → Text → Text
single_spaced after [] = []
single_spaced after (c ∷ s) =
    let rest = single_spaced (c == 32) s in if after && c == 32 then rest else c ∷ rest

has_double-cons :
    (c d : ℕ) (s : Text) → has_double (c ∷ d ∷ s) ≡ (c == 32 && d == 32 || has_double (d ∷ s))
unfolding has_double index has_prefix
has_double-cons c d s = ground (arith, Option-cases (index (d ∷ s) (codes "  ")))

has_double-one : (c : ℕ) → has_double (c ∷ []) ≡ false
unfolding has_double index has_prefix
has_double-one c = ground arith

single_spaced-clean :
    (c : ℕ) (s : Text) → has_double (c ∷ s) ≡ false → single_spaced (c == 32) s ≡ s
unfolding single_spaced
single_spaced-clean c [] h = refl
single_spaced-clean c (d ∷ s) h = ground (arith, has_double-cons c d s, single_spaced-clean d s)

single_spaced-halve_doubles :
    (after : Bool) (s : Text) → single_spaced after (halve_doubles s) ≡ single_spaced after s
unfolding single_spaced halve_doubles
single_spaced-halve_doubles after [] = refl
single_spaced-halve_doubles after (c ∷ []) = refl
single_spaced-halve_doubles after (c ∷ d ∷ s) =
    ground
      (arith, single_spaced-halve_doubles true s, single_spaced-halve_doubles (c == 32) (d ∷ s))

length-halve_doubles_le : (s : Text) → length (halve_doubles s) ≤ length s
unfolding halve_doubles
length-halve_doubles_le [] = omega arith
length-halve_doubles_le (c ∷ []) = omega arith
length-halve_doubles_le (c ∷ d ∷ s) =
    ground (arith, length-halve_doubles_le s, length-halve_doubles_le (d ∷ s))

length-halve_doubles : (s : Text) → has_double s ≡ true → length (halve_doubles s) < length s
unfolding halve_doubles
length-halve_doubles [] h = unfold has_double index has_prefix in cc
length-halve_doubles (c ∷ []) h = absurd (ground (arith, has_double-one c))
length-halve_doubles (c ∷ d ∷ s) h =
    ground (arith, length-halve_doubles_le s, length-halve_doubles (d ∷ s), has_double-cons c d s)

clean : (s : Text) → has_double s ≡ false → single_spaced false s ≡ s
unfolding single_spaced
clean [] h = refl
clean (c ∷ s) h = ap (◌∷◌ c) (single_spaced-clean c s h)

pub collapse-single_spaced :
    (fuel : ℕ) (s : Text) → length s ≤ fuel → collapse fuel s ≡ single_spaced false s
unfolding collapse
collapse-single_spaced zero [] h = unfold single_spaced in refl
collapse-single_spaced zero (c ∷ s) h = absurd (omega arith)
collapse-single_spaced (suc fuel) s h = elim (Bool-cases (has_double s)) [
  | inl double ↦ rw double (
      collapse-single_spaced fuel (halve_doubles s)
        (omega (arith, length-halve_doubles s double, h))
      ∙ single_spaced-halve_doubles false s)
  | inr single ↦ rw single (sym (clean s single))
]
