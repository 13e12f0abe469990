-- ===== src/Rag/Retriever/Scores.antt =====
-- internal/rag/retriever.go: the score of each chunk in the fusion.
use syara_ai.Base.{
  ℕ, suc, ◌≡◌, refl, subst, sym, ap, ◌∙◌, true, false, Bool-cases, inl, inr, Option, Option-cases,
  none, some, List, [], ◌∷◌, ◌++◌, if◌then◌else◌, Text, text_eq, text_eq_iff, Dict, lookup, insert,
  lookup-insert, insert-IsDistinct, IsDistinct, text_equality,
}
use syara_ai.Rag.Chunk.{Float, RetrievedChunk}
use syara_ai.Rag.Retriever.{RrfItem, scored, add_results, keep_higher, fuse}

module _ {F : Type 0} (float : Float F) (add : F → F → F) where
  abbrev pub score_of : Text → Dict Text (RrfItem F) → Option F
  score_of id scores = elim (lookup id scores) [ none ↦ none | some item ↦ some item.score ]

  -- The shares of the ranks at which the chunk stands, from `rank` on.
  abbrev pub shares_of : (ℕ → F) → ℕ → Text → List (RetrievedChunk F) → List F
  shares_of share rank id [] = []
  shares_of share rank id (c ∷ cs) =
      if text_eq c.id id
      then share rank ∷ shares_of share (suc rank) id cs
      else shares_of share (suc rank) id cs

  -- The sum from the left; none of no shares.
  abbrev pub sum_from : Option F → List F → Option F
  sum_from total [] = total
  sum_from none (x ∷ xs) = sum_from (some x) xs
  sum_from (some total) (x ∷ xs) = sum_from (some (add total x)) xs

  sum_from-append :
      (total : Option F) (xs ys : List F)
      → sum_from total (xs ++ ys) ≡ sum_from (sum_from total xs) ys
  sum_from-append total [] ys = refl
  sum_from-append none (x ∷ xs) ys = sum_from-append (some x) xs ys
  sum_from-append (some t) (x ∷ xs) ys = sum_from-append (some (add t x)) xs ys

  score_of-insert :
      (k : Text) (item : RrfItem F) (scores : Dict Text (RrfItem F)) (id : Text)
      → text_eq k id ≡ true
      → score_of id (insert k item scores) ≡ some item.score
  score_of-insert k item scores id same =
      let e : lookup id (insert k item scores) ≡ some item =
        lookup-insert k id item scores ∙ rw same refl in
      rw (e, score_of) refl

  score_of-insert_other :
      (k : Text) (item : RrfItem F) (scores : Dict Text (RrfItem F)) (id : Text)
      → text_eq k id ≡ false
      → score_of id (insert k item scores) ≡ score_of id scores
  score_of-insert_other k item scores id other =
      let e : lookup id (insert k item scores) ≡ lookup id scores =
        lookup-insert k id item scores ∙ rw other refl in
      rw (e, score_of) refl

  -- The score of a chunk after one more share of it.
  same_score :
      (share : ℕ → F) (merge : RetrievedChunk F → RetrievedChunk F → RetrievedChunk F) (rank : ℕ)
      (c : RetrievedChunk F) (scores : Dict Text (RrfItem F)) (id : Text)
      → text_eq c.id id ≡ true
      → some (scored float add share merge rank c scores).score
        ≡ sum_from (score_of id scores) (share rank ∷ [])
  same_score share merge rank c scores id same =
      let e : c.id ≡ id = (text_eq_iff c.id id).0 same in
      subst
        (λ k.
          some (scored float add share merge rank c scores).score
          ≡ sum_from (score_of k scores) (share rank ∷ []))
        e
        (elim (Option-cases (lookup c.id scores)) [
          | inl absent ↦ rw (absent, score_of, scored) refl
          | inr (item, found) ↦ rw (found, score_of, scored) refl
        ])

  score_of-add_results :
      (share : ℕ → F) (merge : RetrievedChunk F → RetrievedChunk F → RetrievedChunk F) (rank : ℕ)
      (chunks : List (RetrievedChunk F)) (scores : Dict Text (RrfItem F)) (id : Text)
      → score_of id (add_results float add share merge rank chunks scores)
        ≡ sum_from (score_of id scores) (shares_of share rank id chunks)
  unfolding add_results
  score_of-add_results share merge rank [] scores id = refl
  score_of-add_results share merge rank (c ∷ cs) scores id =
      let item = scored float add share merge rank c scores in
      let rest = shares_of share (suc rank) id cs in
      score_of-add_results share merge (suc rank) cs (insert c.id item scores) id
      ∙ elim (Bool-cases (text_eq c.id id)) [
        | inl same ↦
            let shares : share rank ∷ rest ≡ shares_of share rank id (c ∷ cs) = rw same refl in
            let total = score_of id scores in
            ap (λ t. sum_from t rest)
              (score_of-insert c.id item scores id same
                ∙ same_score share merge rank c scores id same)
            ∙ sym (sum_from-append total (share rank ∷ []) rest)
            ∙ ap (sum_from total) shares
        | inr other ↦
            let shares : rest ≡ shares_of share rank id (c ∷ cs) = rw other refl in
            ap (λ t. sum_from t rest) (score_of-insert_other c.id item scores id other)
            ∙ ap (sum_from (score_of id scores)) shares
      ]

  add_results-IsDistinct :
      (share : ℕ → F) (merge : RetrievedChunk F → RetrievedChunk F → RetrievedChunk F) (rank : ℕ)
      (chunks : List (RetrievedChunk F)) (scores : Dict Text (RrfItem F))
      → IsDistinct scores
      → IsDistinct (add_results float add share merge rank chunks scores)
  unfolding add_results
  add_results-IsDistinct share merge rank [] scores h = h
  add_results-IsDistinct share merge rank (c ∷ cs) scores h =
      add_results-IsDistinct share merge (suc rank) cs _ (insert-IsDistinct c.id _ scores h)

  -- In the fusion each chunk stands once, and its score is the sum of the shares of the ranks at
  -- which it stands in the semantic and then in the keyword results; a chunk of neither has none.
  pub score_of-fuse :
      (semantic_share keyword_share : ℕ → F) (semantic keyword : List (RetrievedChunk F))
      (id : Text)
      → let scores = fuse float add semantic_share keyword_share semantic keyword in
        IsDistinct scores
        × (score_of id scores
            ≡ sum_from none
                (shares_of semantic_share 0 id semantic ++ shares_of keyword_share 0 id keyword))
  unfolding fuse lookup
  score_of-fuse semantic_share keyword_share semantic keyword id =
      let first = add_results float add semantic_share (λ existing chunk. existing) 0 semantic [] in
      let shares = shares_of keyword_share 0 id keyword in
      (
        add_results-IsDistinct keyword_share (keep_higher float add) 0 keyword first
            (add_results-IsDistinct semantic_share (λ existing chunk. existing) 0 semantic [] tt),
        score_of-add_results keyword_share (keep_higher float add) 0 keyword first id
            ∙ ap (λ t. sum_from t shares)
                (score_of-add_results semantic_share (λ existing chunk. existing) 0 semantic [] id)
            ∙ sym (sum_from-append none (shares_of semantic_share 0 id semantic) shares),
      )
