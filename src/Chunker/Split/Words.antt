-- ===== src/Chunker/Split/Words.antt =====
-- internal/chunker/chunker.go: what `splitByWords` makes of a text.
use syara_ai.Base.{
  ℕ, ◌+◌, ◌≡◌, inl, inr, refl, sym, ap, ◌∙◌, subst, true, false, List, [], ◌∷◌, ◌++◌, map, ltb,
  Bool-cases, All, Text, codes, text_eq, text_equality, arith, append_assoc, append-nil, IsNonempty,
  ap₂, fields, join, All-append, fields-IsNonempty, join-IsNonempty, ltb→lt, join-append,
  ltb_false→le,
}
use syara_ai.Chunker.Section.{Chunk, ChunkMetadata, Section, create_chunk_from_text}
use syara_ai.Chunker.Split.{
  State, start, add_part, flush_keeping_start, flush, add_word, add_words, split_by_words,
}
use syara_ai.Chunker.Split.Groups.{
  flatten, flatten-append, spaced, contents, contents-append, spaced_groups, total, total-append,
  IsInLimit, IsGreedy, append_group-IsGreedy, append-IsGreedy, IsNext, IsFollowed,
}

module _ (max : ℕ) (count : Text → ℕ) where
  abbrev pub IsCounted : Chunk → Type 0
  IsCounted c = c.token_count ≡ count c.content

  -- The contents are the groups of the words, in order, each joined by spaces; a chunk's token count
  -- is that of its whole content, the spaces included.
  pub record IsCutOf (words : List Text) (cs : List Chunk) : Type 0 where
    pub groups : List (List Text)
    pub partition : flatten groups ≡ words
    pub joined : contents cs ≡ map spaced groups
    pub in_limit : All (IsInLimit max count) groups
    pub counted : All IsCounted cs
    pub greedy : IsGreedy max count groups

  -- The same of a state's chunks for the words `done`, with `current` in the current text.
  record IsCut (Next : List (List Text) → Type 0) (done current : List Text) (st : State)
      : Type 0 where
    made : IsCutOf done st.chunks
    text : st.current_text ≡ spaced current
    tokens : st.current_tokens ≡ total max count current
    words_only : All IsNonempty current
    limit : IsInLimit max count current
    next : Next made.groups

  IsCutOf-append :
      (done g : List Text) (cs : List Chunk) (c : Chunk) (h : IsCutOf done cs)
      → c.content ≡ spaced g
      → IsInLimit max count g
      → IsCounted c
      → IsGreedy max count (h.groups ++ g ∷ [])
      → (longer : IsCutOf (done ++ g) (cs ++ c ∷ [])) × (longer.groups ≡ h.groups ++ g ∷ [])
  IsCutOf-append done g cs c h e limit counted greedy = (
    record {
      groups = h.groups ++ g ∷ [];
      partition = flatten-append h.groups g ∙ ap (λ ws. ws ++ g) h.partition;
      joined =
          contents-append cs c
          ∙ ap₂ (λ ts t. ts ++ t ∷ []) h.joined e
          ∙ sym (spaced_groups h.groups g);
      in_limit = All-append (IsInLimit max count) h.groups (g ∷ []) h.in_limit (limit, tt);
      counted = All-append IsCounted cs (c ∷ []) h.counted (counted, tt);
      greedy = greedy;
    },
    refl,
  )

  module _ (metadata : ChunkMetadata) (section : Section) where
    flush-IsCut :
        (done current : List Text) (st : State)
        → IsCut (IsNext max count current) done current st
        → IsCut
            (IsFollowed max count current)
            (done ++ current)
            []
            (flush_keeping_start max count metadata section st)
    unfolding join create_chunk_from_text
    flush-IsCut done [] st h =
        let blank : text_eq st.current_text [] ≡ true = rw (h.text) refl in
        rw (blank) (
          subst (λ ws. IsCut (IsFollowed max count []) ws [] st) (sym (append-nil done))
            (record {
              made = h.made;
              text = h.text;
              tokens = h.tokens;
              words_only = tt;
              limit = h.limit;
              next = λ w lt. rw (h.next) ((λ e. absurd (cc e)), tt, tt);
            }))
    flush-IsCut done (w ∷ ws) st h =
        let full : text_eq st.current_text [] ≡ false =
          rw (h.text) (join-IsNonempty w ws (codes " ") h.words_only.0) in
        let (made, same) =
          IsCutOf-append done (w ∷ ws) st.chunks
            (create_chunk_from_text count metadata section st.current_text st.chunk_index
              st.start_pos)
            h.made h.text h.limit refl h.next in
        rw (full) (record {
          made = made;
          text = refl;
          tokens = refl;
          words_only = tt;
          limit = inr (omega arith);
          next = λ x lt. rw (same) (append_group-IsGreedy max count h.made.groups w x ws h.next lt);
        })

    add_part-IsCut :
        (Next : List (List Text) → Type 0) (done current : List Text) (st : State) (w : Text)
        (h : IsCut Next done current st)
        → IsNonempty w
        → IsInLimit max count (current ++ w ∷ [])
        → IsGreedy max count (h.made.groups ++ (current ++ w ∷ []) ∷ [])
        → IsCut
            (IsNext max count (current ++ w ∷ []))
            done
            (current ++ w ∷ [])
            (add_part (codes " ") st w (count w))
    unfolding join
    add_part-IsCut Next done [] st w h nonempty limit greedy =
        let blank : text_eq st.current_text [] ≡ true = rw (h.text) refl in
        record {
          made = h.made;
          text = rw (blank) refl;
          tokens = omega (arith, h.tokens);
          words_only = (nonempty, tt);
          limit = limit;
          next = greedy;
        }
    add_part-IsCut Next done (v ∷ vs) st w h nonempty limit greedy =
        let full : text_eq st.current_text [] ≡ false =
          rw (h.text) (join-IsNonempty v vs (codes " ") h.words_only.0) in
        record {
          made = h.made;
          text = rw (full, join-append v vs w (codes " ")) (ap (λ t. t ++ (codes " " ++ w)) h.text);
          tokens = omega (arith, h.tokens, total-append max count (v ∷ vs) w);
          words_only = All-append IsNonempty (v ∷ vs) (w ∷ []) h.words_only (nonempty, tt);
          limit = limit;
          next = greedy;
        }

    -- A word more, in the current text or behind a flush.
    add_word-IsCut :
        (done current : List Text) (st : State) (w : Text)
        → IsCut (IsNext max count current) done current st
        → IsNonempty w
        → (done' current' : List Text) × (done' ++ current' ≡ (done ++ current) ++ w ∷ [])
          × IsCut
              (IsNext max count current')
              done'
              current'
              (add_word max count metadata section st w)
    add_word-IsCut done current st w h nonempty =
        elim (Bool-cases (ltb max (st.current_tokens + count w))) [
          | inl over ↦
              let f = flush-IsCut done current st h in
              let moved : IsCut (IsFollowed max count current) (done ++ current) []
                  (flush max count metadata section st) =
                record {
                  made = f.made;
                  text = f.text;
                  tokens = f.tokens;
                  words_only = tt;
                  limit = f.limit;
                  next = f.next;
                } in
              (
                done ++ current,
                w ∷ [],
                refl,
                rw (over) (
                    add_part-IsCut (IsFollowed max count current) (done ++ current) []
                      (flush max count metadata section st) w moved nonempty (inr (omega arith))
                      (moved.next w
                        (omega (arith, ltb→lt max (st.current_tokens + count w) over, h.tokens)))),
              )
          | inr within ↦ (
            done,
            current ++ w ∷ [],
            sym (append_assoc done current (w ∷ [])),
            rw (within) (
                add_part-IsCut (IsNext max count current) done current st w h nonempty
                  (inl (
                    omega (
                      arith,
                      ltb_false→le max (st.current_tokens + count w) within,
                      h.tokens,
                      total-append max count current w,
                    )))
                  (append-IsGreedy max count current w h.made.groups h.next)),
          )
        ]

    add_words-IsCut :
        (done current : List Text) (st : State) (words : List Text)
        → IsCut (IsNext max count current) done current st
        → All IsNonempty words
        → (done' current' : List Text) × (done' ++ current' ≡ (done ++ current) ++ words)
          × IsCut
              (IsNext max count current')
              done'
              current'
              (add_words max count metadata section st words)
    unfolding add_words
    add_words-IsCut done current st [] h n = (done, current, sym (append-nil (done ++ current)), h)
    add_words-IsCut done current st (w ∷ words) h (n, ns) =
        let (d, c, e, h') = add_word-IsCut done current st w h n in
        let (d', c', e', h'') =
          add_words-IsCut d c (add_word max count metadata section st w) words h' ns in
        (d', c', e' ∙ ap (λ ws. ws ++ words) e ∙ append_assoc (done ++ current) (w ∷ []) words, h'')

    -- `splitByWords` cuts the words of the text into groups, in order and with none lost, and makes
    -- a chunk of each, joined by spaces, with the token count of that content. It is the sum of the
    -- token counts of a group's words that stays in the limit, unless the group is one word, and
    -- that the first word of the next group would bring above it. The spaces are not measured, so
    -- that a chunk's token count can exceed the limit.
    pub split_by_words-IsCutOf :
        (text : Text) (index pos : ℕ)
        → IsCutOf (fields text) (split_by_words max count metadata section text index pos).0
    unfolding split_by_words
    split_by_words-IsCutOf text index pos =
        let empty : IsCut (IsNext max count []) [] [] (start pos index) = record {
          made = record {
            groups = [];
            partition = refl;
            joined = refl;
            in_limit = tt;
            counted = tt;
            greedy = tt;
          };
          text = unfold join in refl;
          tokens = refl;
          words_only = tt;
          limit = inr (omega arith);
          next = refl;
        } in
        let (done, current, e, h) =
          add_words-IsCut [] [] (start pos index) (fields text) empty (fields-IsNonempty text) in
        let all = flush-IsCut done current _ h in
        subst
          (λ ws.
            IsCutOf ws
              (flush_keeping_start max count metadata section
                (add_words max count metadata section (start pos index) (fields text))).chunks)
          e all.made
