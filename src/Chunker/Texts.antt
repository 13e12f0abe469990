-- ===== src/Chunker/Texts.antt =====
-- internal/chunker/chunker.go: the helpers on texts. The regular expressions are written out as the
-- scans that they stand for; white space is the ASCII white space.
use syara_ai.Base.{
  ℕ, zero, suc, ◌+◌, Bool, true, false, ◌||◌, Option, none, some, List, [], ◌∷◌, ◌++◌, ◌==◌,
  if◌then◌else◌, length, drop, Text, codes, has_prefix, trim_space,
}

-- The class `\s` of the regular expressions, which has no '\v'.
abbrev is_blank : ℕ → Bool
is_blank c = c == 32 || (c == 9 || (c == 10 || (c == 12 || c == 13)))

-- How much of the text the rest `\s*\n` of a paragraph break takes, if it matches.
break_length : Text → Option ℕ
break_length [] = none
break_length (c ∷ s) =
    let here : Option ℕ = if c == 10 then some 1 else none in
    let longer : Option ℕ = elim (break_length s) [ some n ↦ some (suc n) | none ↦ here ] in
    if is_blank c then longer else none

-- The split at `\n\s*\n`: `skip` bytes of a break are left, `cur` is the part so far.
paragraph_parts : ℕ → Text → Text → List Text
unfolding break_length
paragraph_parts skip cur [] = cur ∷ []
paragraph_parts (suc skip) cur (c ∷ s) = paragraph_parts skip cur s
paragraph_parts zero cur (c ∷ s) = elim (if c == 10 then break_length s else none) [
  | some n ↦ cur ∷ paragraph_parts n [] s
  | none ↦ paragraph_parts zero (cur ++ c ∷ []) s
]

-- The parts trimmed, without the empty ones.
non_empty : List Text → List Text
non_empty [] = []
non_empty (p ∷ ps) = elim (trim_space p) [ [] ↦ non_empty ps | c ∷ s ↦ (c ∷ s) ∷ non_empty ps ]

unfoldable pub split_paragraphs : Text → List Text
unfolding paragraph_parts non_empty
split_paragraphs text = non_empty (paragraph_parts zero [] text)

-- `strings.ReplaceAll(text, old, new)` for an `old` that is not empty: `skip` bytes of a match are
-- left.
replace_from : Text → Text → ℕ → Text → Text
unfolding has_prefix
replace_from old new skip [] = []
replace_from old new (suc skip) (c ∷ s) = replace_from old new skip s
replace_from old new zero (c ∷ s) = elim (has_prefix (c ∷ s) old) [
  | true ↦ new ++ replace_from old new (length (drop 1 old)) s
  | false ↦ c ∷ replace_from old new zero s
]

unfoldable pub replace_all : Text → Text → Text → Text
unfolding replace_from
replace_all text old new = replace_from old new zero text

abbrev pub abbreviations : List Text
abbreviations =
    codes "Mr."
    ∷ codes "Mrs."
    ∷ codes "Ms."
    ∷ codes "Dr."
    ∷ codes "Prof."
    ∷ codes "Sr."
    ∷ codes "Jr."
    ∷ codes "Inc."
    ∷ codes "Ltd."
    ∷ codes "Corp."
    ∷ codes "Co."
    ∷ codes "e.g."
    ∷ codes "i.e."
    ∷ codes "etc."
    ∷ codes "vs."
    ∷ codes "No."
    ∷ codes "Vol."
    ∷ codes "Art."
    ∷ codes "Sec."
    ∷ []

-- The loop of `protectAbbreviations` over the abbreviations left.
protect : List Text → Text → Text
unfolding replace_all
protect [] text = text
protect (a ∷ later) text =
    protect later (replace_all text a (replace_all a (codes ".") (codes "<DOT>")))

unfoldable pub protect_abbreviations : Text → Text
unfolding protect
protect_abbreviations text = protect abbreviations text

unfoldable pub restore_abbreviations : Text → Text
unfolding replace_all
restore_abbreviations text = replace_all text (codes "<DOT>") (codes ".")

abbrev is_stop : ℕ → Bool
is_stop c = c == b'.' || (c == b'!' || c == b'?')

-- How many bytes `\s+` takes.
blank_length : Text → ℕ
blank_length [] = 0
blank_length (c ∷ s) = let rest = blank_length s in if is_blank c then suc rest else 0

-- The stops at the front and the number of blanks behind them, if `([.!?]+)\s+` matches.
sentence_end : Text → Option (Text × ℕ)
unfolding blank_length
sentence_end [] = none
sentence_end (c ∷ s) =
    let here : Option (Text × ℕ) = elim (blank_length s) [
      | zero ↦ none
      | suc n ↦ some (c ∷ [], suc n)
    ] in
    let longer : Option (Text × ℕ) = elim (sentence_end s) [
      | some (stops, n) ↦ some (c ∷ stops, n)
      | none ↦ here
    ] in
    if is_stop c then longer else none

-- The parts between the matches, and the stops of the matches.
sentence_parts : ℕ → Text → Text → List Text × List Text
unfolding sentence_end
sentence_parts skip cur [] = (cur ∷ [], [])
sentence_parts (suc skip) cur (c ∷ s) = sentence_parts skip cur s
sentence_parts zero cur (c ∷ s) = elim (sentence_end (c ∷ s)) [
  | some (stops, n) ↦
      let (parts, matches) = sentence_parts (length (drop 1 stops) + n) [] s in
      (cur ∷ parts, stops ∷ matches)
  | none ↦ sentence_parts zero (cur ++ c ∷ []) s
]

-- The loop over the parts, with the matches that are not used up; the last part takes none.
sentences_of : List Text → List Text → List Text
unfolding restore_abbreviations
sentences_of [] matches = []
sentences_of (part ∷ parts) matches = elim (trim_space part) [
  | [] ↦ sentences_of parts matches
  | c ∷ s ↦ elim parts [
    | [] ↦ restore_abbreviations (c ∷ s) ∷ []
    | next ∷ later ↦ elim matches [
      | [] ↦ restore_abbreviations (c ∷ s) ∷ sentences_of parts []
      | stops ∷ rest ↦ restore_abbreviations ((c ∷ s) ++ stops) ∷ sentences_of parts rest
    ]
  ]
]

unfoldable pub split_sentences : Text → List Text
unfolding protect_abbreviations sentence_parts sentences_of
split_sentences text =
    let (parts, matches) = sentence_parts zero [] (protect_abbreviations text) in
    sentences_of parts matches
