-- ===== src/Chunker/Document/Overlap.antt =====
-- internal/chunker/chunker.go: what the overlap changes.
use syara_ai.Base.{
  ℕ, ◌+◌, ◌-◌, ◌/◌, ◌≤◌, ◌<◌, ◌≡◌, ◌≢◌, ◌⊎◌, inl, inr, refl, true, false, ◌&&◌, none, some, List,
  [], ◌∷◌, ◌++◌, ◌==◌, ltb, leb, if◌then◌else◌, Bool-cases, Option-cases, length, take, drop, Text,
  codes, text_eq, text_equality, arith, ==_iff, has_prefix, index, trim_space, last,
  take-append-drop, length-last, ltb_false→le, text_eq_sound, text_eq_false→ne,
}
use syara_ai.Chunker.Section.{Chunk, Boundary}
use syara_ai.Chunker.Document.{
  ChunkerConfig, count_tokens, get_overlap_text, overlapped, overlap_from, add_overlap,
}

-- The text behind the first space, if that is not at the beginning and lies in the first half, or
-- else the text.
abbrev pub IsFromWord : Text → Text → Type 0
IsFromWord text whole =
    ((i : ℕ) × (index text (codes " ") ≡ some i)
      × (0 < i)
      × (i < length text / 2)
      × (whole ≡ drop (i + 1) text))
    ⊎ (((index text (codes " ") ≡ none)
          ⊎ ((i : ℕ) × (index text (codes " ") ≡ some i) × ((i ≡ 0) ⊎ (length text / 2 ≤ i))))
        × (whole ≡ text))

-- The text that `getOverlapText` takes of the overlap's text.
abbrev from_word : Text → Text
from_word text = elim (index text (codes " ")) [
  | none ↦ text
  | some i ↦ if ltb 0 i && ltb i (length text / 2) then drop (i + 1) text else text
]

from_word-IsFromWord : (text : Text) → IsFromWord text (from_word text)
from_word-IsFromWord text = elim (Option-cases (index text (codes " "))) [
  | inl absent ↦ inr (inl absent, rw (absent, from_word) refl)
  | inr (i, found) ↦ elim (Bool-cases (ltb 0 i && ltb i (length text / 2))) [
    | inl early ↦ inl (i, found, ground arith, ground arith, rw (found, from_word) (rw early refl))
    | inr late ↦ inr (
      inr (
        i,
        found,
        elim (Bool-cases (ltb 0 i)) [
          | inl inside ↦ inr (ground arith)
          | inr start ↦ inl (omega (arith, ltb_false→le 0 i start))
        ],
      ),
      rw (found, from_word) (rw late refl),
    )
  ]
]

module _ (encode : Text → List ℕ) (decode : List ℕ → Text) (find_headers : Text → List Boundary)
    (config : ChunkerConfig) where
  -- The overlap behind the content `before`: none for at most the configured number of tokens, or
  -- else the text of the last tokens, of that number, from a whole word and trimmed.
  abbrev pub IsOverlap : Text → Text → Type 0
  IsOverlap before overlap =
      ((length (encode before) ≤ config.overlap_tokens) × (overlap ≡ []))
      ⊎ ((config.overlap_tokens < length (encode before))
          × (front : List ℕ) × (end : List ℕ) × (whole : Text) × (front ++ end ≡ encode before)
          × (length end ≡ config.overlap_tokens)
          × IsFromWord (trim_space (decode end)) whole
          × (overlap ≡ trim_space whole))

  -- The chunk again, where there is no overlap or the content begins with it already, or else the
  -- chunk with the overlap and a space in front, its tokens counted anew.
  abbrev pub IsLengthened : Text → Chunk → Chunk → Type 0
  IsLengthened before c d =
      (overlap : Text) × IsOverlap before overlap
      × let content = overlap ++ (codes " " ++ c.content) in
        ((d ≡ c) × ((overlap ≡ []) ⊎ (has_prefix c.content overlap ≡ true)))
        ⊎ ((d ≡ record c { content = content; token_count = length (encode content) })
            × (overlap ≢ [])
            × (has_prefix c.content overlap ≡ false))

  -- Each chunk of the second list is one of the first so lengthened, by what is before it in the
  -- second list.
  abbrev pub AreLengthened : Text → List Chunk → List Chunk → Type 0
  AreLengthened before [] [] = Unit
  AreLengthened before (c ∷ cs) [] = ⊥
  AreLengthened before [] (d ∷ ds) = ⊥
  AreLengthened before (c ∷ cs) (d ∷ ds) = IsLengthened before c d × AreLengthened d.content cs ds

  get_overlap_text-IsOverlap :
      (before : Text) → IsOverlap before (get_overlap_text encode decode find_headers config before)
  unfolding get_overlap_text index trim_space
  get_overlap_text-IsOverlap before =
      let tokens = encode before in
      let end = last config.overlap_tokens tokens in
      elim (Bool-cases (leb (length tokens) config.overlap_tokens)) [
        | inl short ↦ inl (ground arith, rw short refl)
        | inr long ↦
            let more : config.overlap_tokens < length tokens = ground arith in
            rw long (
              inr (
                more,
                take (length tokens - config.overlap_tokens) tokens,
                end,
                from_word (trim_space (decode end)),
                take-append-drop (length tokens - config.overlap_tokens) tokens,
                omega (arith, length-last config.overlap_tokens tokens),
                from_word-IsFromWord (trim_space (decode end)),
                refl,
              ))
      ]

  overlapped-IsLengthened :
      (before : Text) (c : Chunk)
      → IsLengthened before c (overlapped encode decode find_headers config before c)
  unfolding overlapped count_tokens
  overlapped-IsLengthened before c =
      let overlap = get_overlap_text encode decode find_headers config before in
      (
        overlap,
        get_overlap_text-IsOverlap before,
        elim (Bool-cases (text_eq overlap [])) [
          | inl empty ↦ inl (rw empty refl, inl (text_eq_sound overlap [] empty))
          | inr some_text ↦ elim (Bool-cases (has_prefix c.content overlap)) [
            | inl there ↦ inl (rw (some_text, there) refl, inr there)
            | inr absent ↦
                inr (rw (some_text, absent) refl, text_eq_false→ne overlap [] some_text, absent)
          ]
        ],
      )

  overlap_from-AreLengthened :
      (before : Text) (cs : List Chunk)
      → AreLengthened before cs (overlap_from encode decode find_headers config before cs)
  unfolding overlap_from
  overlap_from-AreLengthened before [] = tt
  overlap_from-AreLengthened before (c ∷ cs) = (
    overlapped-IsLengthened before c,
    overlap_from-AreLengthened (overlapped encode decode find_headers config before c).content cs,
  )

  -- Without overlap tokens `addOverlap` keeps the chunks. Otherwise it keeps the first, and puts in
  -- front of each other one the overlap of the content before it, which has its own overlap already:
  -- the text of its last tokens, from the first space where that is not at the beginning and in the
  -- first half; it puts none where the content before is too short or the chunk begins with it.
  pub add_overlap-AreLengthened :
      (c : Chunk) (cs : List Chunk)
      → let out = add_overlap encode decode find_headers config (c ∷ cs) in
        ((config.overlap_tokens ≡ 0) × (out ≡ c ∷ cs))
        ⊎ ((config.overlap_tokens ≢ 0)
            × (ds : List Chunk) × (out ≡ c ∷ ds)
            × AreLengthened c.content cs ds)
  unfolding add_overlap
  add_overlap-AreLengthened c cs = elim (Bool-cases (config.overlap_tokens == 0)) [
    | inl off ↦ inl ((==_iff config.overlap_tokens 0).0 off, rw off refl)
    | inr on ↦ inr (
      (λ e. cc (on, (==_iff config.overlap_tokens 0).1 e)),
      overlap_from encode decode find_headers config c.content cs,
      rw on refl,
      overlap_from-AreLengthened c.content cs,
    )
  ]
