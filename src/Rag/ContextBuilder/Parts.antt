-- ===== src/Rag/ContextBuilder/Parts.antt =====
-- internal/rag/context_builder.go: the texts of the chunks, joined and counted as `Build` does.
use syara_ai.Base.{
  ◌+◌, ◌/◌, join-append, join-IsNonempty, IsNonempty, join, ◌≡◌, ◌⊎◌, inl, inr, refl, sym, ap, ◌∙◌,
  subst, ℕ, List, [], ◌∷◌, ◌++◌, Text, text_eq, length, arith, true, false,
}
use syara_ai.Rag.Chunk.{Float, RetrievedChunk}
use syara_ai.Rag.ContextBuilder.{
  ContextBuilderConfig, ContextOptions, BuiltContext, format_chunk, add_chunk, no_context,
}

-- The texts from the first that is not empty.
abbrev pub drop_empty : List Text → List Text
drop_empty [] = []
drop_empty ([] ∷ parts) = drop_empty parts
drop_empty ((c ∷ s) ∷ parts) = (c ∷ s) ∷ parts

-- A token for every four bytes that are begun.
abbrev pub tokens_of : Text → ℕ
tokens_of s = (length s + 3) / 4

-- The tokens of the texts.
abbrev pub estimates : List Text → ℕ
estimates [] = 0
estimates (part ∷ parts) = tokens_of part + estimates parts

-- The tokens of the separators between the texts, of `n` tokens each.
abbrev pub separators : ℕ → List Text → ℕ
separators n [] = 0
separators n (part ∷ []) = 0
separators n (part ∷ next ∷ parts) = n + separators n (next ∷ parts)

estimates-append :
    (parts : List Text) (part : Text)
    → estimates (parts ++ part ∷ []) ≡ estimates parts + tokens_of part
estimates-append [] part = omega arith
estimates-append (p ∷ parts) part = omega (arith, estimates-append parts part)

separators-append :
    (n : ℕ) (p : Text) (ps : List Text) (part : Text)
    → separators n ((p ∷ ps) ++ part ∷ []) ≡ separators n (p ∷ ps) + n
separators-append n p [] part = omega arith
separators-append n p (q ∷ ps) part = omega (arith, separators-append n q ps part)

drop_empty-append :
    (parts : List Text) (part : Text)
    → ((drop_empty parts ≡ []) × (drop_empty (parts ++ part ∷ []) ≡ drop_empty (part ∷ [])))
      ⊎ ((p : Text) × (ps : List Text) × (drop_empty parts ≡ p ∷ ps)
          × IsNonempty p
          × (drop_empty (parts ++ part ∷ []) ≡ (p ∷ ps) ++ part ∷ []))
drop_empty-append [] part = inl (refl, refl)
drop_empty-append ([] ∷ parts) part = drop_empty-append parts part
drop_empty-append ((c ∷ s) ∷ parts) part = inr (c ∷ s, parts, refl, refl, refl)

join-drop_empty : (part sep : Text) → join (drop_empty (part ∷ [])) sep ≡ part
unfolding join
join-drop_empty [] sep = refl
join-drop_empty (c ∷ s) sep = refl

separators-drop_empty : (n : ℕ) (part : Text) → separators n (drop_empty (part ∷ [])) ≡ 0
separators-drop_empty n [] = refl
separators-drop_empty n (c ∷ s) = refl

module _ {F : Type 0} (float : Float F) (config : ContextBuilderConfig F) where
  -- The texts of chunks that are numbered from `i + 1`.
  abbrev pub format_from : ContextOptions → ℕ → List (RetrievedChunk F) → List Text
  format_from opts i [] = []
  format_from opts i (chunk ∷ chunks) =
      format_chunk float opts.format_style config.format_style chunk (i + 1)
      ∷ format_from opts (i + 1) chunks

  format_from-append :
      (opts : ContextOptions) (i : ℕ) (chunks : List (RetrievedChunk F)) (chunk : RetrievedChunk F)
      → format_from opts i (chunks ++ chunk ∷ [])
        ≡ format_from opts i chunks
          ++ format_chunk float opts.format_style config.format_style chunk (i + length chunks + 1)
            ∷ []
  format_from-append opts i [] chunk =
      ap (λ n. format_chunk float opts.format_style config.format_style chunk n ∷ []) (omega arith)
  format_from-append opts i (c ∷ chunks) chunk =
      ap (◌∷◌ (format_chunk float opts.format_style config.format_style c (i + 1))) (
        format_from-append opts (i + 1) chunks chunk
        ∙ ap
            (λ n.
              format_from opts (i + 1) chunks
              ++ format_chunk float opts.format_style config.format_style chunk n ∷ [])
            (omega arith))

  -- The text is the parts, joined by the separator, without the empty ones before the first that is
  -- not empty; the token count is that of all parts and of the separators between those joined.
  pub record IsJoined (parts : List Text) (built : BuiltContext F) : Type 0 where
    pub text : built.text ≡ join (drop_empty parts) config.chunk_separator
    pub tokens :
        built.token_count
        ≡ estimates parts + separators (tokens_of config.chunk_separator) (drop_empty parts)

  -- One part more, behind the separator unless the text is empty.
  IsJoined-add_chunk :
      (parts : List Text) (built : BuiltContext F) (chunk : RetrievedChunk F) (i : ℕ)
      (formatted : Text)
      → IsJoined parts built
      → IsJoined (parts ++ formatted ∷ []) (add_chunk float config built chunk (i + 1) formatted)
  unfolding join
  IsJoined-add_chunk parts built chunk i formatted h =
      let sep = tokens_of config.chunk_separator in
      elim (drop_empty-append parts formatted) [
        | inl (none_yet, first) ↦
            let empty : built.text ≡ [] =
              h.text ∙ ap (λ ps. join ps config.chunk_separator) none_yet in
            let blank : text_eq built.text [] ≡ true = rw (empty) refl in
            rw (blank) (record {
              text =
                  ap (λ t. t ++ formatted) empty
                  ∙ sym (
                      ap (λ ps. join ps config.chunk_separator) first
                      ∙ join-drop_empty formatted config.chunk_separator);
              tokens = omega (
                arith,
                h.tokens,
                estimates-append parts formatted,
                ap (separators sep) none_yet,
                ap (separators sep) first,
                separators-drop_empty sep formatted,
              );
            })
        | inr (p, ps, before, nonempty, longer) ↦
            let full : text_eq built.text [] ≡ false =
              rw (h.text, before) (join-IsNonempty p ps config.chunk_separator nonempty) in
            rw (full) (record {
              text =
                  ap (λ t. t ++ (config.chunk_separator ++ formatted))
                    (h.text ∙ ap (λ qs. join qs config.chunk_separator) before)
                  ∙ sym (
                      ap (λ qs. join qs config.chunk_separator) longer
                      ∙ join-append p ps formatted config.chunk_separator);
              tokens = omega (
                arith,
                h.tokens,
                estimates-append parts formatted,
                ap (separators sep) before,
                ap (separators sep) longer,
                separators-append sep p ps formatted,
              );
            })
      ]

  pub format-add_chunk :
      (opts : ContextOptions) (built : BuiltContext F) (chunk : RetrievedChunk F) (i : ℕ)
      → i ≡ length built.included_chunks
      → IsJoined (format_from opts 0 built.included_chunks) built
      → let formatted = format_chunk float opts.format_style config.format_style chunk (i + 1) in
        IsJoined
          (format_from opts 0 (built.included_chunks ++ chunk ∷ []))
          (add_chunk float config built chunk (i + 1) formatted)
  format-add_chunk opts built chunk i at joined =
      let format = format_chunk float opts.format_style config.format_style chunk in
      let longer = (add_chunk float config built chunk (i + 1) (format (i + 1))) in
      subst (λ parts. IsJoined parts longer)
        (ap (λ n. format_from opts 0 built.included_chunks ++ format n ∷ []) (omega arith)
          ∙ sym (format_from-append opts 0 built.included_chunks chunk))
        (IsJoined-add_chunk (format_from opts 0 built.included_chunks) built chunk i
          (format (i + 1)) joined)

  pub nothing_joined : IsJoined [] (no_context float config)
  unfolding join
  nothing_joined = record { text = refl; tokens = refl }
