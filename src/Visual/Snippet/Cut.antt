-- ===== src/Visual/Snippet/Cut.antt =====
-- internal/visual/citation_builder.go: where a snippet is cut.
use syara_ai.Base.{
  ℕ, zero, suc, ◌/◌, ◌≤◌, ◌<◌, ◌≡◌, ◌⊎◌, inl, inr, refl, ap, subst, false, some, List, [], ◌∷◌,
  ◌++◌, map, ltb, Bool-cases, Option-cases, length, take, get_elem?, Text, codes, text_equality,
  arith,
}
use syara_ai.Base.{last_index, has_prefix, length-take, trim_space, ℤ}
use syara_ai.Visual.Snippet.{shorten, create_snippet, max_length, blank, collapse}
use syara_ai.Visual.Snippet.Spaces.{single_spaced, collapse-single_spaced}

module _ {A : Type 0} where
  take-take : (i n : ℕ) (xs : List A) → i ≤ n → take i (take n xs) ≡ take i xs
  take-take zero n xs h = refl
  take-take (suc i) zero xs h = absurd (omega arith)
  take-take (suc i) (suc n) [] h = refl
  take-take (suc i) (suc n) (x ∷ xs) h = ap (◌∷◌ x) (take-take i n xs (omega arith))

  get_elem?-take :
      (n i : ℕ) (xs : List A) (x : A) → get_elem? (take n xs) i ≡ some x → get_elem? xs i ≡ some x
  get_elem?-take zero i xs x h = absurd (cc)
  get_elem?-take (suc n) i [] x h = h
  get_elem?-take (suc n) zero (y ∷ xs) x h = h
  get_elem?-take (suc n) (suc i) (y ∷ xs) x h = get_elem?-take n i xs x h

  get_elem?-lt : (i : ℕ) (xs : List A) (x : A) → get_elem? xs i ≡ some x → i < length xs
  get_elem?-lt i [] x h = absurd (cc)
  get_elem?-lt zero (y ∷ xs) x h = omega arith
  get_elem?-lt (suc i) (y ∷ xs) x h = omega (arith, get_elem?-lt i xs x h)

last_index-space : (s : Text) (i : ℕ) → last_index s (codes " ") ≡ some i → get_elem? s i ≡ some 32
unfolding last_index has_prefix
last_index-space [] i h = absurd (cc)
last_index-space (c ∷ s) i h = elim (Option-cases (last_index s (codes " "))) [
  | inr (j, later) ↦ ground (arith, last_index-space s j)
  | inl none_later ↦ ground arith
]

-- What a snippet is of a text: all of it where it fits, or else its first `n` bytes and an ellipsis,
-- where `n` is the limit, or a space stands there, beyond half of the limit.
pub IsSnippet : ℕ → Text → Text → Type 0
IsSnippet max text snippet =
    ((length text ≤ max) × (snippet ≡ text))
    ⊎ ((max < length text)
        × ((n : ℕ) × (snippet ≡ take n text ++ codes "...")
            × ((n ≡ max) ⊎ ((max / 2 < n) × (n < max) × (get_elem? text n ≡ some 32)))))

shorten-IsSnippet : (max : ℕ) (text : Text) → IsSnippet max text (shorten max text)
unfolding shorten IsSnippet
shorten-IsSnippet max text = elim (Bool-cases (ltb max (length text))) [
  | inr fits ↦ rw (fits, shorten) (inl (ground arith, refl))
  | inl long ↦ elim (Option-cases (last_index (take max text) (codes " "))) [
    | inl no_space ↦ rw (long, shorten) (rw no_space (inr (ground arith, (max, refl, inl refl))))
    | inr (i, space) ↦
        let at : get_elem? (take max text) i ≡ some 32 = last_index-space (take max text) i space in
        let within : i < max =
          omega (arith, get_elem?-lt i (take max text) 32 at, length-take max text) in
        elim (Bool-cases (ltb (max / 2) i)) [
          | inl late ↦
              rw (long, shorten)
                (rw space (
                  rw late (
                    inr (
                      ground arith,
                      (
                        i,
                        ap (λ t. t ++ codes "...") (take-take i max text (omega arith)),
                        inr (ground arith, within, get_elem?-take max i text 32 at),
                      ),
                    ))))
          | inr early ↦
              rw (long, shorten) (rw space (rw early (inr (ground arith, (max, refl, inl refl)))))
        ]
  ]
]

-- The snippet of a content is made of the trimmed content with lines and tabs as spaces and without
-- the spaces that follow a space: all of it where it fits in the limit (300 where the configured
-- limit is not positive), or else its start up to the limit, or up to a space beyond half of the
-- limit, and an ellipsis.
pub create_snippet-IsSnippet :
    (snippet_max_length : ℤ) (content : Text)
    → IsSnippet
        (max_length snippet_max_length)
        (single_spaced false (map blank (trim_space content)))
        (create_snippet snippet_max_length content)
unfolding create_snippet
create_snippet-IsSnippet snippet_max_length content =
    let cleaned = map blank (trim_space content) in
    subst
      (λ text.
        IsSnippet (max_length snippet_max_length) text
          (shorten (max_length snippet_max_length) (collapse (length cleaned) cleaned)))
      (collapse-single_spaced (length cleaned) cleaned (omega arith))
      (shorten-IsSnippet (max_length snippet_max_length) (collapse (length cleaned) cleaned))
