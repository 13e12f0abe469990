-- ===== src/Rag/ContextBuilder/Budget.antt =====
-- internal/rag/context_builder.go: which chunks `Build` takes, what it counts, and what it cites.
use syara_ai.Base.{
  zero, pos, negsuc, ℕ, suc, ◌+◌, ◌≤◌, ◌<◌, ◌≡◌, refl, sym, ◌∙◌, ap, ap₂, Bool-cases, List, [], ◌∷◌,
  ◌++◌, append_assoc, sort_slice, ltb, ltb_false→le, length, length-append, ◌⊎◌, inl, inr, Text,
  text_eq, arith, positive_or, ℤ, if◌then◌else◌, ◌-◌, is_nonpos, ◌==◌, ==_iff, pos_part, pos, ◌≢◌,
  negsuc,
}
use syara_ai.Rag.Chunk.{Float, RetrievedChunk}
use syara_ai.Rag.ContextBuilder.{
  ContextBuilderConfig, ContextOptions, Citation, BuiltContext, format_chunk, citation, add_chunk,
  fill, no_context, available_tokens, candidates, build, deduplicate_chunks,
}
use syara_ai.Rag.ContextBuilder.Parts.{
  tokens_of, format_from, IsJoined, format-add_chunk, nothing_joined,
}

module _ {F : Type 0} (float : Float F) (config : ContextBuilderConfig F) where
  -- The citations of chunks that are numbered from `i + 1`.
  abbrev pub cite : ℕ → List (RetrievedChunk F) → List (Citation F)
  cite i [] = []
  cite i (chunk ∷ chunks) =
      record {
        index = i + 1;
        chunk_id = chunk.id;
        document_id = chunk.document_id;
        document_title = chunk.document_title;
        source_type = chunk.source_type;
        section = chunk.section_title;
        page = chunk.page_number;
        standard_num = chunk.standard_num;
        similarity = chunk.similarity;
      }
      ∷ cite (i + 1) chunks

  cite-append :
      (i : ℕ) (chunks : List (RetrievedChunk F)) (chunk : RetrievedChunk F)
      → cite i (chunks ++ chunk ∷ [])
        ≡ cite i chunks ++ citation float config chunk (i + length chunks + 1) ∷ []
  cite-append i [] chunk = ap (λ n. citation float config chunk n ∷ []) (omega arith)
  cite-append i (c ∷ chunks) chunk = ap (◌∷◌ (citation float config c (i + 1))) (
      cite-append (i + 1) chunks chunk
      ∙ ap (λ n. cite (i + 1) chunks ++ citation float config chunk n ∷ []) (omega arith))

  -- The tokens that are left for the chunks: those of the options, or of the configuration if the
  -- options have none, less the reserves, or all where the reserves take all.
  abbrev pub IsBudget : ContextOptions → ℕ → Type 0
  IsBudget opts budget =
      let most = positive_or config.max_tokens opts.max_tokens in
      let reserves = opts.system_prompt_tokens + opts.query_tokens + opts.response_buffer in
      ((reserves < most) × (budget + reserves ≡ most)) ⊎ ((most ≤ reserves) × (budget ≡ most))

  -- The context has a beginning of the chunks, with a citation each, and their texts joined; the rest
  -- is counted, and its first chunk would go over the budget.
  pub record IsContextOf (opts : ContextOptions) (all : List (RetrievedChunk F))
      (built : BuiltContext F) : Type 0 where
    pub rest : List (RetrievedChunk F)
    pub split : all ≡ built.included_chunks ++ rest
    pub truncated : built.truncated_count ≡ length rest
    pub cited : built.citations ≡ cite 0 built.included_chunks
    pub joined : IsJoined float config (format_from float config opts 0 built.included_chunks) built
    pub budget : ℕ
    pub allowed : IsBudget opts budget
    pub in_budget : built.token_count ≤ budget + tokens_of config.chunk_separator
    pub full :
        (rest ≡ [])
        ⊎ ((next : RetrievedChunk F) × (later : List (RetrievedChunk F)) × (rest ≡ next ∷ later)
            × (budget
                < built.token_count
                  + tokens_of (
                      format_chunk float opts.format_style config.format_style next
                        (length built.included_chunks + 1))))

  positive_or-is_nonpos :
      (n : ℕ) (z : ℤ) → (if is_nonpos z then n else pos_part z) ≡ positive_or n z
  positive_or-is_nonpos n (pos zero) = refl
  positive_or-is_nonpos n (pos (suc k)) = refl
  positive_or-is_nonpos n (negsuc k) = refl

  available_tokens-IsBudget :
      (opts : ContextOptions) → IsBudget opts (available_tokens float config opts)
  available_tokens-IsBudget opts = rw (positive_or-is_nonpos config.max_tokens opts.max_tokens) (
      let most = positive_or config.max_tokens opts.max_tokens in
      let reserves = opts.system_prompt_tokens + opts.query_tokens + opts.response_buffer in
      elim (Bool-cases (most - reserves == 0)) [
        | inl all_reserved ↦
            let zero_left = (==_iff (most - reserves) 0).0 all_reserved in
            rw all_reserved (inr (omega arith, refl))
        | inr left ↦
            let some_left : most - reserves ≢ 0 =
              (λ e. cc (left, (==_iff (most - reserves) 0).1 e)) in
            rw left (inl (omega arith, omega arith))
      ])

  cite-add_chunk :
      (built : BuiltContext F) (chunk : RetrievedChunk F) (i : ℕ) (formatted : Text)
      → i ≡ length built.included_chunks
      → built.citations ≡ cite 0 built.included_chunks
      → (add_chunk float config built chunk (i + 1) formatted).citations
        ≡ cite 0 (built.included_chunks ++ chunk ∷ [])
  cite-add_chunk built chunk i formatted at cited =
      ap₂ (λ cs n. cs ++ citation float config chunk n ∷ []) cited (omega arith)
      ∙ sym (cite-append 0 built.included_chunks chunk)

  tokens-add_chunk :
      (built : BuiltContext F) (chunk : RetrievedChunk F) (i : ℕ) (formatted : Text) (available : ℕ)
      → built.token_count ≤ available + tokens_of config.chunk_separator
      → built.token_count + tokens_of formatted ≤ available
      → (add_chunk float config built chunk (i + 1) formatted).token_count
        ≤ available + tokens_of config.chunk_separator
  tokens-add_chunk built chunk i formatted available budget fits =
      elim (Bool-cases (text_eq built.text [])) [
        | inl first ↦ rw first (omega arith)
        | inr later ↦ rw later (omega arith)
      ]

  fill-IsContextOf :
      (opts : ContextOptions) (all chunks : List (RetrievedChunk F)) (i : ℕ)
      (built : BuiltContext F)
      → i ≡ length built.included_chunks
      → all ≡ built.included_chunks ++ chunks
      → built.truncated_count ≡ 0
      → built.citations ≡ cite 0 built.included_chunks
      → IsJoined float config (format_from float config opts 0 built.included_chunks) built
      → built.token_count ≤ available_tokens float config opts + tokens_of config.chunk_separator
      → IsContextOf opts all
          (fill float config opts (available_tokens float config opts) (length all) chunks i built)
  unfolding fill
  fill-IsContextOf opts all [] i built at split none_left cited joined budget = record {
    rest = [];
    split = split;
    truncated = none_left;
    cited = cited;
    joined = joined;
    budget = available_tokens float config opts;
    allowed = available_tokens-IsBudget opts;
    in_budget = budget;
    full = inl refl;
  }
  fill-IsContextOf opts all (chunk ∷ chunks) i built at split none_left cited joined budget =
      let available = available_tokens float config opts in
      let formatted = format_chunk float opts.format_style config.format_style chunk (i + 1) in
      elim (Bool-cases (ltb available (built.token_count + tokens_of formatted))) [
        | inl over ↦
            let left : length all ≡ length built.included_chunks + suc (length chunks) =
              ap length split ∙ length-append built.included_chunks (chunk ∷ chunks) in
            rw (over, fill)
              (record {
                rest = chunk ∷ chunks;
                split = split;
                truncated = omega arith;
                cited = cited;
                joined = record { text = joined.text; tokens = joined.tokens };
                budget = available;
                allowed = available_tokens-IsBudget opts;
                in_budget = budget;
                full = inr (chunk, chunks, refl, rw (← at) (ground arith));
              })
        | inr within ↦
            rw (within, fill)
              (fill-IsContextOf opts all chunks (suc i)
                (add_chunk float config built chunk (i + 1) formatted)
                (omega (arith, length-append built.included_chunks (chunk ∷ [])))
                (split ∙ sym (append_assoc built.included_chunks (chunk ∷ []) chunks)) none_left
                (cite-add_chunk built chunk i formatted at cited)
                (format-add_chunk float config opts built chunk i at joined)
                (tokens-add_chunk built chunk i formatted available budget
                  (ltb_false→le _ _ within)))
      ]

  candidates_nil : candidates float config [] ≡ []
  unfolding candidates deduplicate_chunks sort_slice
  candidates_nil = elim (Bool-cases config.deduplicate_content) [
    | inl on ↦ rw on refl
    | inr off ↦ rw off refl
  ]

  -- `Build` includes the first of the chunks that are left after sorting by similarity and, where it
  -- is asked for, deduplication, each with the citation of its number; it counts the others as
  -- truncated, and stops only at a chunk that would exceed the budget, which is the token limit less
  -- the reserves, or the whole limit where these take all. The text is the texts of the numbered
  -- chunks, joined by the separator, without empty ones at the beginning; the token count is that of
  -- the chunks' texts and of the separators between them, and it exceeds the budget by one separator
  -- at most.
  pub build-IsContextOf :
      (chunks : List (RetrievedChunk F)) (opts : ContextOptions)
      → let sorted = sort_slice (λ a b. float.greater a.similarity b.similarity) chunks in
        let left =
          (if config.deduplicate_content then deduplicate_chunks float config sorted else sorted) in
        IsContextOf opts left (build float config chunks opts)
  unfolding build candidates
  build-IsContextOf [] opts = record {
    rest = [];
    split = candidates_nil;
    truncated = refl;
    cited = refl;
    joined = nothing_joined float config;
    budget = available_tokens float config opts;
    allowed = available_tokens-IsBudget opts;
    in_budget = omega arith;
    full = inl refl;
  }
  build-IsContextOf (chunk ∷ chunks) opts =
      let all = candidates float config (chunk ∷ chunks) in
      fill-IsContextOf opts all all 0 (no_context float config) refl refl refl refl
        (nothing_joined float config) (omega arith)
