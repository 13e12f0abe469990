-- ===== src/Agent/Memory/Sentences.antt =====
-- internal/agent/memory.go: the topic that `extractTopic` finds in a message.
use syara_ai.Base.{
  ltb→lt, ltb_false→le, ℕ, ◌≤◌, ◌<◌, ◌≡◌, ◌⊎◌, inl, inr, refl, none, some, ◌++◌, ltb, Bool-cases,
  Option-cases, length, take, Text, codes, text_equality, arith, ltb_false→le,
}
use syara_ai.Agent.Memory.{shorten, sentence, extract_topic, index, last_index, trim_space}

-- The part of the text before the first `end`, which stands in the first 100 bytes, and not at the
-- beginning.
abbrev pub IsSentence : Text → Text → Text → Type 0
IsSentence end s topic = (i : ℕ) × (index s end ≡ some i) × (0 < i) × (i < 100) × (topic ≡ take i s)

-- There is no such part.
abbrev pub HasNoSentence : Text → Text → Type 0
HasNoSentence end s =
    (index s end ≡ none) ⊎ ((i : ℕ) × (index s end ≡ some i) × ((i ≡ 0) ⊎ (100 ≤ i)))

-- The text, or its first 50 bytes, cut at their last space if more than 30 are before it, and three
-- dots.
abbrev pub IsShortened : Text → Text → Type 0
IsShortened s topic =
    ((length s ≤ 50) × (topic ≡ s))
    ⊎ ((50 < length s)
        × (cut : Text) × (topic ≡ cut ++ codes "...")
        × (((i : ℕ) × (last_index (take 50 s) (codes " ") ≡ some i)
              × (30 < i)
              × (cut ≡ take i (take 50 s)))
            ⊎ (((last_index (take 50 s) (codes " ") ≡ none)
                  ⊎ ((i : ℕ) × (last_index (take 50 s) (codes " ") ≡ some i) × (i ≤ 30)))
                × (cut ≡ take 50 s))))

-- The first sentence of the trimmed content, or else its first question, or else its beginning.
abbrev pub IsTopicOf : Text → Text → Type 0
IsTopicOf content topic =
    let s = trim_space content in
    IsSentence (codes ". ") s topic
    ⊎ (HasNoSentence (codes ". ") s
        × (IsSentence (codes "? ") s topic ⊎ (HasNoSentence (codes "? ") s × IsShortened s topic)))

sentence-cases :
    (end s : Text)
    → ((topic : Text) × (sentence end s ≡ some topic) × IsSentence end s topic)
      ⊎ ((sentence end s ≡ none) × HasNoSentence end s)
unfolding sentence
sentence-cases end s = elim (Option-cases (index s end)) [
  | inl absent ↦ inr (rw (absent, sentence) refl, inl absent)
  | inr (i, found) ↦ elim (Bool-cases (ltb 0 i)) [
    | inl inside ↦ elim (Bool-cases (ltb i 100)) [
      | inl early ↦ inl (
        take i s,
        rw (found, sentence) (rw (inside, early) refl),
        (i, found, ltb→lt 0 i inside, ltb→lt i 100 early, refl),
      )
      | inr late ↦ inr (
        rw (found, sentence) (rw (inside, late) refl),
        inr (i, found, inr (ltb_false→le i 100 late)),
      )
    ]
    | inr at_start ↦ inr (
      rw (found, sentence) (rw at_start refl),
      inr (i, found, inl (omega (arith, ltb_false→le 0 i at_start))),
    )
  ]
]

shorten-IsShortened : (s : Text) → IsShortened s (shorten s)
unfolding shorten
shorten-IsShortened s = elim (Bool-cases (ltb 50 (length s))) [
  | inr short ↦ inl (ltb_false→le 50 (length s) short, rw (short, shorten) refl)
  | inl long ↦ elim (Option-cases (last_index (take 50 s) (codes " "))) [
    | inl absent ↦ inr (
      ltb→lt 50 (length s) long,
      take 50 s,
      rw (absent, shorten) (rw long refl),
      inr (inl absent, refl),
    )
    | inr (i, found) ↦ elim (Bool-cases (ltb 30 i)) [
      | inl late ↦ inr (
        ltb→lt 50 (length s) long,
        take i (take 50 s),
        rw (found, shorten) (rw (long, late) refl),
        inl (i, found, ltb→lt 30 i late, refl),
      )
      | inr early ↦ inr (
        ltb→lt 50 (length s) long,
        take 50 s,
        rw (found, shorten) (rw (long, early) refl),
        inr (inr (i, found, ltb_false→le 30 i early), refl),
      )
    ]
  ]
]

pub extract_topic-IsTopicOf : (content : Text) → IsTopicOf content (extract_topic content)
unfolding extract_topic
extract_topic-IsTopicOf content =
    let s = trim_space content in
    elim (sentence-cases (codes ". ") s) [
      | inl (topic, e, is) ↦ rw (e, extract_topic) (inl is)
      | inr (none_ends, no_stop) ↦ elim (sentence-cases (codes "? ") s) [
        | inl (topic, e, is) ↦ rw (none_ends, e, extract_topic) (inr (no_stop, inl is))
        | inr (none_asks, no_question) ↦
            rw (none_ends, none_asks, extract_topic)
              (inr (no_stop, inr (no_question, shorten-IsShortened s)))
      ]
    ]
