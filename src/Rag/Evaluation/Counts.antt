-- ===== src/Rag/Evaluation/Counts.antt =====
-- internal/rag/evaluation/metrics.go: precision, recall and hits as shares of one count.
use syara_ai.Base.{
  ℕ, zero, suc, ◌+◌, ◌≤◌, ◌<◌, ◌≡◌, ◌≢◌, inl, inr, refl, sym, Bool, true, false, List, [], ◌∷◌,
  ◌==◌, ltb, if◌then◌else◌, Bool-cases, length, All, Text, text_eq, text_eq_iff, text_equality,
  arith, Dict, lookup, insert,
}
use syara_ai.Base.{min}
use syara_ai.Rag.Evaluation.{
  Numbers, RetrievalResult, relevant_set, is_in, count_relevant, precision_at_k, recall_at_k,
  has_hit, hit_at_k,
}

-- The results stand for different items.
abbrev pub AllDifferent : {F : Type 0} → List (RetrievalResult F) → Type 0
AllDifferent [] = Unit
AllDifferent (r ∷ results) = All (λ s. s.id ≢ r.id) results × AllDifferent results

-- How often an identifier stands among the first results.
occurrences : {F : Type 0} → Text → List (RetrievalResult F) → ℕ → ℕ
occurrences id results zero = 0
occurrences id [] (suc limit) = 0
occurrences id (r ∷ results) (suc limit) =
    let count = occurrences id results limit in if text_eq id r.id then suc count else count

occurrences-none :
    {F : Type 0} (id : Text) (results : List (RetrievalResult F)) (limit : ℕ)
    → All (λ s. s.id ≢ id) results
    → occurrences id results limit ≡ 0
unfolding occurrences
occurrences-none id results zero h = refl
occurrences-none id [] (suc limit) h = refl
occurrences-none id (r ∷ results) (suc limit) (other, h) = elim (Bool-cases (text_eq id r.id)) [
  | inl same ↦ absurd (other (sym ((text_eq_iff id r.id).0 same)))
  | inr differs ↦ rw differs (occurrences-none id results limit h)
]

occurrences-one :
    {F : Type 0} (id : Text) (results : List (RetrievalResult F)) (limit : ℕ)
    → AllDifferent results
    → occurrences id results limit ≤ 1
unfolding occurrences
occurrences-one id results zero h = omega arith
occurrences-one id [] (suc limit) h = omega arith
occurrences-one id (r ∷ results) (suc limit) (first, h) = elim (Bool-cases (text_eq id r.id)) [
  | inl same ↦
      let none_later : occurrences id results limit ≡ 0 =
        rw ((text_eq_iff id r.id).0 same) (occurrences-none r.id results limit first) in
      rw same (omega arith)
  | inr differs ↦ rw differs (occurrences-one id results limit h)
]

count_relevant-cons :
    {F : Type 0} (j : Text) (v : Bool) (m : Dict Text Bool) (results : List (RetrievalResult F))
    (limit : ℕ)
    → count_relevant ((j, v) ∷ m) results limit
      ≤ count_relevant m results limit + occurrences j results limit
unfolding count_relevant occurrences is_in lookup
count_relevant-cons j v m results zero = omega arith
count_relevant-cons j v m [] (suc limit) = omega arith
count_relevant-cons j v m (r ∷ results) (suc limit) =
    ground (arith, count_relevant-cons j v m results limit)

count_relevant-empty :
    {F : Type 0} (results : List (RetrievalResult F)) (limit : ℕ)
    → count_relevant [] results limit ≡ 0
unfolding count_relevant is_in lookup
count_relevant-empty results zero = refl
count_relevant-empty [] (suc limit) = refl
count_relevant-empty (r ∷ results) (suc limit) = count_relevant-empty results limit

count_relevant_le :
    {F : Type 0} (m : Dict Text Bool) (results : List (RetrievalResult F)) (limit : ℕ)
    → AllDifferent results
    → count_relevant m results limit ≤ length m
count_relevant_le [] results limit h = omega (arith, count_relevant-empty results limit)
count_relevant_le ((j, v) ∷ m) results limit h = omega (
  arith,
  count_relevant-cons j v m results limit,
  occurrences-one j results limit h,
  count_relevant_le m results limit h,
)

count_relevant_limit :
    {F : Type 0} (m : Dict Text Bool) (results : List (RetrievalResult F)) (limit : ℕ)
    → count_relevant m results limit ≤ limit
unfolding count_relevant
count_relevant_limit m results zero = omega arith
count_relevant_limit m [] (suc limit) = omega arith
count_relevant_limit m (r ∷ results) (suc limit) =
    ground (arith, count_relevant_limit m results limit)

length-insert :
    (id : Text) (v : Bool) (m : Dict Text Bool) → length (insert id v m) ≤ suc (length m)
unfolding insert
length-insert id v [] = omega arith
length-insert id v ((j, w) ∷ m) = ground (arith, length-insert id v m)

length-relevant_set :
    (ids : List Text) (m : Dict Text Bool) → length (relevant_set ids m) ≤ length m + length ids
unfolding relevant_set
length-relevant_set [] m = omega arith
length-relevant_set (id ∷ ids) m =
    omega (arith, length-relevant_set ids (insert id true m), length-insert id true m)

module _ {F : Type 0} (float : Numbers F) where
  has_hit-count :
      (m : Dict Text Bool) (results : List (RetrievalResult F)) (limit : ℕ)
      → has_hit float m results limit ≡ ltb 0 (count_relevant m results limit)
  unfolding has_hit count_relevant
  has_hit-count m results zero = refl
  has_hit-count m [] (suc limit) = refl
  has_hit-count m (r ∷ results) (suc limit) = ground (arith, has_hit-count m results limit)

  -- For results of different items and at least one relevant identifier, precision, recall and hit
  -- at `k > 0` are shares of one count, which is neither above `k` nor above the number of the
  -- relevant identifiers: the precision is the count over `k`, the recall the count over that
  -- number, and the hit 1 if the count is positive and 0 if not.
  pub precision_at_k-recall_at_k :
      (results : List (RetrievalResult F)) (relevant_ids : List Text) (k : ℕ)
      → AllDifferent results
      → 0 < k
      → 0 < length relevant_ids
      → let relevant = relevant_set relevant_ids [] in
        (count : ℕ) × (count ≤ k)
        × (count ≤ length relevant_ids)
        × (precision_at_k float results relevant k
            ≡ float.divide (float.of_nat count) (float.of_nat k))
        × (recall_at_k float results relevant k (length relevant_ids)
            ≡ float.divide (float.of_nat count) (float.of_nat (length relevant_ids)))
        × (hit_at_k float results relevant k ≡ float.of_nat (if ltb 0 count then 1 else 0))
  unfolding precision_at_k recall_at_k hit_at_k
  precision_at_k-recall_at_k results relevant_ids k different some_k some_id =
      let relevant = relevant_set relevant_ids [] in
      let limit = min k (length results) in
      let k_positive : (k == 0) ≡ false = ground arith in
      let id_positive : (length relevant_ids == 0) ≡ false = ground arith in
      (
        count_relevant relevant results limit,
        omega (arith, count_relevant_limit relevant results limit),
        omega (
          arith,
          count_relevant_le relevant results limit different,
          length-relevant_set relevant_ids [],
        ),
        rw (k_positive, precision_at_k) refl,
        rw (id_positive, recall_at_k) refl,
        rw (has_hit-count relevant results limit, hit_at_k) refl,
      )
