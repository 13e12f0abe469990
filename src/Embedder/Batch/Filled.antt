-- ===== src/Embedder/Batch/Filled.antt =====
-- internal/embedder/embedder.go: the results of a batch against the embedding of each text.
use syara_ai.Base.{
  ℕ, suc, ◌≡◌, refl, ap, ◌∙◌, inl, inr, Option, none, some, List, [], ◌∷◌, ◌++◌, map, Text,
  Option-cases,
}
use syara_ai.Embedder.Batch.{split_cached, set_at}

abbrev shift : Text × ℕ → Text × ℕ
shift (text, i) = (text, suc i)

module _ {V : Type 0} (meaning : Text → V) where
  -- The results with the embedding of each text that is left at its index.
  unfoldable pub filled : List (Text × ℕ) → List (Option V) → List (Option V)
  filled [] results = results
  filled ((text, i) ∷ pending) results = filled pending (set_at results i (meaning text))

  pub filled-append :
      (ps qs : List (Text × ℕ)) (results : List (Option V))
      → filled (ps ++ qs) results ≡ filled qs (filled ps results)
  unfolding filled
  filled-append [] qs results = refl
  filled-append ((text, i) ∷ ps) qs results = filled-append ps qs (set_at results i (meaning text))

  filled-shift :
      (ps : List (Text × ℕ)) (r : Option V) (results : List (Option V))
      → filled (map shift ps) (r ∷ results) ≡ r ∷ filled ps results
  unfolding filled
  filled-shift [] r results = refl
  filled-shift ((text, i) ∷ ps) r results = filled-shift ps r (set_at results i (meaning text))

module _ {V : Type 0} (find : Text → Option V) where
  -- The results do not depend on where the indices begin.
  split_cached-suc :
      (texts : List Text) (i : ℕ)
      → ((split_cached find texts (suc i)).0 ≡ (split_cached find texts i).0)
        × ((split_cached find texts (suc i)).1 ≡ map shift (split_cached find texts i).1)
  unfolding split_cached
  split_cached-suc [] i = (refl, refl)
  split_cached-suc (text ∷ texts) i = elim (Option-cases (find text)) [
    | inl absent ↦
        rw (absent, split_cached)
          (
            ap (◌∷◌ none) (split_cached-suc texts (suc i)).0,
            ap (◌∷◌ (text, suc i)) (split_cached-suc texts (suc i)).1,
          )
    | inr (v, found) ↦
        rw (found, split_cached)
          (ap (◌∷◌ (some v)) (split_cached-suc texts (suc i)).0, (split_cached-suc texts (suc i)).1)
  ]

  -- A cache that finds the right embeddings leaves the others to be filled in.
  pub filled-split_cached :
      (meaning : Text → V)
      → ((text : Text) (v : V) → find text ≡ some v → v ≡ meaning text)
      → (texts : List Text)
      → let (results, pending) = split_cached find texts 0 in
        filled meaning pending results ≡ map (λ text. some (meaning text)) texts
  unfolding split_cached filled
  filled-split_cached meaning right [] = refl
  filled-split_cached meaning right (text ∷ texts) =
      let rest : (r : Option V)
          → filled meaning (split_cached find texts 1).1 (r ∷ (split_cached find texts 1).0)
            ≡ r ∷ map (λ t. some (meaning t)) texts =
        λ r.
          rw ((split_cached-suc texts 0).0, (split_cached-suc texts 0).1)
            (filled-shift meaning (split_cached find texts 0).1 r (split_cached find texts 0).0
              ∙ ap (◌∷◌ r) (filled-split_cached meaning right texts)) in
      elim (Option-cases (find text)) [
        | inl absent ↦ rw (absent, split_cached) (rest (some (meaning text)))
        | inr (v, found) ↦
            rw (found, split_cached)
              (rest (some v)
                ∙ ap (λ u. some u ∷ map (λ t. some (meaning t)) texts) (right text v found))
      ]
