-- ===== src/Rag/ContextBuilder/Duplicates.antt =====
-- internal/rag/context_builder.go: what `deduplicateChunks` keeps.

use mathlib.Core.List.{Sublistᴰ}
use syara_ai.Base.{
  ◌≡◌, refl, subst, sym, ◌∙◌, Bool, true, false, ◌||◌, Bool-cases, List, [], ◌∷◌, leb, length, any,
  any-append, All, All-map, inl, inr, Text, text_eq, text_eq_refl, text_eq_iff, arith,
}
use syara_ai.Rag.Chunk.{Float, RetrievedChunk}
use syara_ai.Rag.ContextBuilder.{
  ContextBuilderConfig, normalize_content, add_new, is_similar_content, keep_new,
  deduplicate_chunks,
}

-- What a test that no element passes gives at one of them.
any-false :
    (p : Text → Bool) (s : Text) (ss : List Text)
    → any p ss ≡ false
    → any (text_eq s) ss ≡ true
    → p s ≡ false
any-false p s [] h m = cc
any-false p s (t ∷ ss) h m = elim (Bool-cases (text_eq s t)) [
  | inl same ↦ let e : s ≡ t = (text_eq_iff s t).0 same in rw e (ground arith)
  | inr other ↦ any-false p s ss (ground arith) (ground arith)
]

pub any-add_new :
    (p : Text → Bool) (s : Text) (seen : List Text) → any p (add_new s seen) ≡ (any p seen || p s)
unfolding add_new
any-add_new p s seen = elim (Bool-cases (any (text_eq s) seen)) [
  | inl old ↦ elim (Bool-cases (any p seen)) [
    | inl found ↦ rw old (rw found refl)
    | inr none_found ↦ rw old (ground (arith, any-false p s seen none_found old))
  ]
  | inr new ↦ rw new (any-append p seen (s ∷ []) ∙ ground arith)
]

module _ {F : Type 0} (float : Float F) (config : ContextBuilderConfig F) where
  abbrev pub similar : RetrievedChunk F → RetrievedChunk F → Bool
  similar a b =
      is_similar_content float config (normalize_content a.content) (normalize_content b.content)

  -- No chunk is similar to an earlier one.
  abbrev pub IsDissimilar : List (RetrievedChunk F) → Type 0
  IsDissimilar [] = Unit
  IsDissimilar (x ∷ xs) = All (λ y. similar y x ≡ false) xs × IsDissimilar xs

  keep_new-unlike :
      (chunks : List (RetrievedChunk F)) (seen : List Text) (s : Text)
      → any (text_eq s) seen ≡ true
      → All
          (λ y. is_similar_content float config (normalize_content y.content) s ≡ false)
          (keep_new float config chunks seen)
  unfolding keep_new
  keep_new-unlike [] seen s m = tt
  keep_new-unlike (c ∷ chunks) seen s m =
      let content = normalize_content c.content in
      elim (Bool-cases (any (is_similar_content float config content) seen)) [
        | inl old ↦ rw (old, keep_new) (keep_new-unlike chunks seen s m)
        | inr new ↦
            rw (new, keep_new)
              (
                any-false (is_similar_content float config content) s seen new m,
                keep_new-unlike chunks (add_new content seen) s
                    (ground (arith, any-add_new (text_eq s) content seen)),
              )
      ]

  keep_new-IsDissimilar :
      (chunks : List (RetrievedChunk F)) (seen : List Text)
      → IsDissimilar (keep_new float config chunks seen)
  unfolding keep_new
  keep_new-IsDissimilar [] seen = tt
  keep_new-IsDissimilar (c ∷ chunks) seen =
      let content = normalize_content c.content in
      elim (Bool-cases (any (is_similar_content float config content) seen)) [
        | inl old ↦ rw (old, keep_new) (keep_new-IsDissimilar chunks seen)
        | inr new ↦
            rw (new, keep_new)
              (
                keep_new-unlike chunks (add_new content seen) content (
                    ground
                      (arith, any-add_new (text_eq content) content seen, text_eq_refl content)),
                keep_new-IsDissimilar chunks (add_new content seen),
              )
      ]

  -- `a` is the normalized text of `b` again or is similar to it.
  abbrev pub stands_for : RetrievedChunk F → RetrievedChunk F → Bool
  stands_for b a =
      text_eq (normalize_content a.content) (normalize_content b.content) || similar a b

  -- One of `kept` stands for the chunk, or its text is similar to one of `seen`.
  abbrev IsRepresented : List (RetrievedChunk F) → List Text → RetrievedChunk F → Type 0
  IsRepresented kept seen c =
      (any (λ k. stands_for k c) kept
        || any (is_similar_content float config (normalize_content c.content)) seen)
      ≡ true

  keep_new-covers :
      (chunks : List (RetrievedChunk F)) (seen : List Text)
      → All (IsRepresented (keep_new float config chunks seen) seen) chunks
  unfolding keep_new
  keep_new-covers [] seen = tt
  keep_new-covers (c ∷ chunks) seen =
      let content = normalize_content c.content in
      elim (Bool-cases (any (is_similar_content float config content) seen)) [
        | inl old ↦
            let step : keep_new float config (c ∷ chunks) seen ≡ keep_new float config chunks seen =
              rw (old, keep_new) refl in
            subst (λ kept. All (IsRepresented kept seen) (c ∷ chunks)) (sym step)
              (ground arith, keep_new-covers chunks seen)
        | inr new ↦
            let rest = keep_new float config chunks (add_new content seen) in
            let step : keep_new float config (c ∷ chunks) seen ≡ c ∷ rest =
              rw (new, keep_new) refl in
            subst (λ kept. All (IsRepresented kept seen) (c ∷ chunks)) (sym step)
              (
                ground (arith, text_eq_refl content),
                All-map (IsRepresented rest (add_new content seen)) (IsRepresented (c ∷ rest) seen)
                    chunks
                    (λ d h. ground (
                      arith,
                      any-add_new (is_similar_content float config (normalize_content d.content))
                          content seen,
                    ))
                    (keep_new-covers chunks (add_new content seen)),
              )
      ]

  keep_new-Sublist :
      (chunks : List (RetrievedChunk F)) (seen : List Text)
      → Sublistᴰ (keep_new float config chunks seen) chunks
  unfolding keep_new
  keep_new-Sublist [] seen = Sublistᴰ.slnil
  keep_new-Sublist (c ∷ chunks) seen =
      let content = normalize_content c.content in
      elim (Bool-cases (any (is_similar_content float config content) seen)) [
        | inl old ↦ rw (old, keep_new) (Sublistᴰ.cons (keep_new-Sublist chunks seen))
        | inr new ↦
            rw (new, keep_new)
              (Sublistᴰ.cons-cons refl (keep_new-Sublist chunks (add_new content seen)))
      ]

  -- `deduplicateChunks` keeps chunks in their order, no two of them similar, and drops a chunk only
  -- where one with the same normalized text or a similar one is kept.
  pub deduplicate_chunks-IsDissimilar :
      (chunks : List (RetrievedChunk F))
      → let kept = deduplicate_chunks float config chunks in
        IsDissimilar kept
        × All (λ c. any (λ k. stands_for k c) kept ≡ true) chunks
        × Sublistᴰ kept chunks
  unfolding deduplicate_chunks
  deduplicate_chunks-IsDissimilar [] = (tt, tt, Sublistᴰ.slnil)
  deduplicate_chunks-IsDissimilar (c ∷ []) = (
    (tt, tt),
    (ground (arith, text_eq_refl (normalize_content c.content)), tt),
    Sublistᴰ.cons-cons refl Sublistᴰ.slnil,
  )
  deduplicate_chunks-IsDissimilar (c ∷ d ∷ chunks) =
      let all = c ∷ d ∷ chunks in
      let kept = keep_new float config all [] in
      let many : leb (length all) 1 ≡ false = ground arith in
      let step : deduplicate_chunks float config all ≡ kept = rw many refl in
      subst
        (λ cs.
          IsDissimilar cs × All (λ x. any (λ k. stands_for k x) cs ≡ true) all × Sublistᴰ cs all)
        (sym step)
        (
          keep_new-IsDissimilar all [],
          All-map (IsRepresented kept []) (λ x. any (λ k. stands_for k x) kept ≡ true) all
              (λ x h. ground arith) (keep_new-covers all []),
          keep_new-Sublist all [],
        )
