-- ===== src/Chunker/Section/Tiling.antt =====
-- internal/chunker/chunker.go: the sections cover the text from the first header to the end.
use syara_ai.Base.{
  ℕ, ◌<◌, ◌≡◌, refl, inl, inr, ◌⊎◌, List, [], ◌∷◌, ◌++◌, length, All, Text, trim_space, take, codes,
  sym, ◌∙◌, ap, any, Bool, false, ◌==◌, ◌≢◌, nat_eq, arith,
}
use syara_ai.Chunker.Section.{
  Boundary, Section, slice, sections_at, untitled, preamble, sort_boundaries,
  deduplicate_boundaries, split_by_section,
}
use syara_ai.Chunker.Section.Order.{
  IsStrictlyAscending, stands_at, deduplicate_boundaries-All,
  deduplicate_boundaries-sort_boundaries,
}

-- Each section starts where the one before ends, the first at `from`, and the last ends at the end
-- of the text; none is empty, and each has the trimmed text between its ends.
abbrev pub IsTiling : Text → ℕ → List Section → Type 0
IsTiling text from [] = from ≡ length text
IsTiling text from (s ∷ ss) =
    (s.start_pos ≡ from)
    × (from < s.end_pos)
    × (s.content ≡ trim_space (slice text from s.end_pos))
    × IsTiling text s.end_pos ss

-- Before the position `first` is no section if the text there is blank, or else one with that text,
-- trimmed, and the title "Introduction".
abbrev pub IsIntroduction : Text → ℕ → List Section → Type 0
IsIntroduction text first front =
    let before = trim_space (take first text) in
    ((before ≡ []) × (front ≡ []))
    ⊎ ((before ≢ []) × (front ≡ untitled (codes "Introduction") before first ∷ []))

abbrev pub starts_at : ℕ → Section → Bool
starts_at pos s = s.start_pos == pos

sections_at-IsTiling :
    (text : Text) (b : Boundary) (bs : List Boundary)
    → IsStrictlyAscending (b ∷ bs)
    → All (λ c. c.pos < length text) (b ∷ bs)
    → IsTiling text b.pos (sections_at text (b ∷ bs))
unfolding sections_at
sections_at-IsTiling text b [] h (inside, hs) = (refl, inside, refl, refl)
sections_at-IsTiling text b (c ∷ bs) (lt, h) (inside, hs) =
    (refl, lt.0, refl, sections_at-IsTiling text c bs h hs)

any-sections_at :
    (text : Text) (pos : ℕ) (bs : List Boundary)
    → any (starts_at pos) (sections_at text bs) ≡ any (stands_at pos) bs
unfolding sections_at
any-sections_at text pos [] = refl
any-sections_at text pos (b ∷ bs) = ground (arith, any-sections_at text pos bs)

preamble-IsIntroduction :
    (text : Text) (first : ℕ) → IsIntroduction text first (preamble text first)
unfolding preamble
preamble-IsIntroduction text first = go (trim_space (take first text)) refl
  where
    go :
        (before : Text)
        → trim_space (take first text) ≡ before
        → IsIntroduction text first (preamble text first)
    go [] e = rw (e, preamble) (inl (refl, refl))
    go (c ∷ cs) e = rw (e, preamble) (inr (λ ne. absurd (cc ne), refl))

any-none : (bs : List Boundary) → ((pos : ℕ) → any (stands_at pos) bs ≡ false) → bs ≡ []
any-none [] h = refl
any-none (b ∷ bs) h = absurd (ground (arith, h b.pos))

-- Where the headers found lie in the text, its sections are the whole text, if there is no header,
-- or else, if there is one, an introduction, if the text before the first header is not blank, and
-- sections that cover the text from the first header to the end, one behind the other, and that
-- start just where the headers stand.
pub split_by_section-IsTiling :
    (find_headers : Text → List Boundary) (text : Text)
    → All (λ c. c.pos < length text) (find_headers text)
    → ((find_headers text ≡ [])
        × (split_by_section find_headers text ≡ untitled [] text (length text) ∷ []))
      ⊎ ((find_headers text ≢ [])
          × (first : ℕ) × (front : List Section) × (sections : List Section) × (split_by_section
                find_headers text
              ≡ front ++ sections)
          × IsIntroduction text first front
          × IsTiling text first sections
          × ((pos : ℕ) → any (starts_at pos) sections ≡ any (stands_at pos) (find_headers text)))
unfolding split_by_section
split_by_section-IsTiling find_headers text inside =
    go (deduplicate_boundaries (sort_boundaries (find_headers text))) refl
      (λ pos. (deduplicate_boundaries-sort_boundaries (find_headers text) pos).1)
      (deduplicate_boundaries-sort_boundaries (find_headers text) 0).0
      (deduplicate_boundaries-All (λ c. c.pos < length text) (find_headers text) inside)
  where
    go :
        (bs : List Boundary)
        → deduplicate_boundaries (sort_boundaries (find_headers text)) ≡ bs
        → ((pos : ℕ)
            → any (stands_at pos) (deduplicate_boundaries (sort_boundaries (find_headers text)))
              ≡ any (stands_at pos) (find_headers text))
        → IsStrictlyAscending bs
        → All (λ c. c.pos < length text) bs
        → ((find_headers text ≡ [])
            × (split_by_section find_headers text ≡ untitled [] text (length text) ∷ []))
          ⊎ ((find_headers text ≢ [])
              × (first : ℕ) × (front : List Section) × (sections : List Section) × (split_by_section
                    find_headers text
                  ≡ front ++ sections)
              × IsIntroduction text first front
              × IsTiling text first sections
              × ((pos : ℕ)
                  → any (starts_at pos) sections ≡ any (stands_at pos) (find_headers text)))
    go [] e same up within = inl (
      any-none (find_headers text) (λ pos. sym (same pos) ∙ ap (any (stands_at pos)) e),
      rw (e, split_by_section) refl,
    )
    go (b ∷ bs) e same up within = inr (
      λ no_header. absurd (
          ground (
            arith,
            ap (any (stands_at b.pos)) no_header,
            ap (any (stands_at b.pos)) e,
            same b.pos,
          )),
      b.pos,
      preamble text b.pos,
      sections_at text (b ∷ bs),
      rw (e, split_by_section) refl,
      preamble-IsIntroduction text b.pos,
      sections_at-IsTiling text b bs up within,
      λ pos. any-sections_at text pos (b ∷ bs) ∙ sym (ap (any (stands_at pos)) e) ∙ same pos,
    )
