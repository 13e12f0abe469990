-- ===== src/Rag/Evaluation.antt =====
-- internal/rag/evaluation/metrics.go: the metrics of retrieval. float64 is the type `F` of `Numbers`;
-- a map to Booleans is a `Dict`.
pub mod Calculate
pub mod Counts
pub mod Tests
use syara_ai.Base.{
  ℕ, zero, suc, ◌+◌, ◌-◌, ◌*◌, ◌/◌, ◌≤◌, ◌<◌, ◌≡◌, ◌≢◌, ◌⊎◌, inl, inr, refl, sym, ap, ◌∙◌, subst,
  Bool, true, false, ◌&&◌, ◌||◌, not, Option, none, some, List, [], ◌∷◌, ◌++◌, map, ◌==◌, ltb, leb,
  if◌then◌else◌, Bool-cases, Option-cases, length, take, drop, get_elem?, All, Text, codes, text_eq,
  text_eq_iff, text_equality, arith, Dict, lookup, insert, append_assoc, append-nil,
}
use syara_ai.Base.{min, sort_slice}

-- What the code does with float64: `gain i` is 1 / log2 (i + 2), `share p` is p / 100.
pub record Numbers (F : Type 0) : Type 0 where
  pub of_nat : ℕ → F
  pub add : F → F → F
  pub sub : F → F → F
  pub mul : F → F → F
  pub divide : F → F → F
  pub less : F → F → Bool
  pub is_zero : F → Bool
  pub gain : ℕ → F
  pub floor : F → ℕ
  pub ceil : F → ℕ

pub record RetrievalResult (F : Type 0) : Type 0 where
  pub id : Text
  pub score : F
  pub is_relevant : Bool

pub record QueryResult (F : Type 0) : Type 0 where
  pub query_id : Text
  pub query : Text
  pub results : List (RetrievalResult F)
  pub relevant_ids : List Text
  pub latency_ms : ℕ
  pub tokens_used : ℕ

unfoldable pub relevant_set : List Text → Dict Text Bool → Dict Text Bool
unfolding insert
relevant_set [] m = m
relevant_set (id ∷ ids) m = relevant_set ids (insert id true m)

-- `relevant[id]`.
unfoldable pub is_in : Dict Text Bool → Text → Bool
unfolding lookup
is_in relevant id = elim (lookup id relevant) [ none ↦ false | some b ↦ b ]

-- The loop that counts the relevant results among the first `limit`.
unfoldable pub count_relevant : {F : Type 0} → Dict Text Bool → List (RetrievalResult F) → ℕ → ℕ
unfolding is_in
count_relevant relevant results zero = 0
count_relevant relevant [] (suc limit) = 0
count_relevant relevant (r ∷ results) (suc limit) =
    let count = count_relevant relevant results limit in
    if is_in relevant r.id then suc count else count

module _ {F : Type 0} (float : Numbers F) where
  unfoldable pub precision_at_k : List (RetrievalResult F) → Dict Text Bool → ℕ → F
  unfolding count_relevant
  precision_at_k results relevant k =
      if k == 0
      then float.of_nat 0
      else float.divide (float.of_nat (count_relevant relevant results (min k (length results))))
          (float.of_nat k)

  unfoldable pub recall_at_k : List (RetrievalResult F) → Dict Text Bool → ℕ → ℕ → F
  unfolding count_relevant
  recall_at_k results relevant k total_relevant =
      if total_relevant == 0
      then float.of_nat 0
      else float.divide (float.of_nat (count_relevant relevant results (min k (length results))))
          (float.of_nat total_relevant)

  -- The loop of `hitAtK`: whether one of the first `limit` is relevant.
  unfoldable pub has_hit : Dict Text Bool → List (RetrievalResult F) → ℕ → Bool
  unfolding is_in
  has_hit relevant results zero = false
  has_hit relevant [] (suc limit) = false
  has_hit relevant (r ∷ results) (suc limit) =
      let later = has_hit relevant results limit in if is_in relevant r.id then true else later

  unfoldable pub hit_at_k : List (RetrievalResult F) → Dict Text Bool → ℕ → F
  unfolding has_hit
  hit_at_k results relevant k =
      float.of_nat (if has_hit relevant results (min k (length results)) then 1 else 0)

  -- From the position `i` on.
  unfoldable pub rank_from : Dict Text Bool → List (RetrievalResult F) → ℕ → F
  unfolding is_in
  rank_from relevant [] i = float.of_nat 0
  rank_from relevant (r ∷ results) i =
      let later = rank_from relevant results (suc i) in
      if is_in relevant r.id then float.divide (float.of_nat 1) (float.of_nat (i + 1)) else later

  unfoldable pub reciprocal_rank : List (RetrievalResult F) → Dict Text Bool → F
  unfolding rank_from
  reciprocal_rank results relevant = rank_from relevant results 0

  dcg_from : Dict Text Bool → List (RetrievalResult F) → ℕ → ℕ → F → F
  unfolding is_in
  dcg_from relevant results zero i dcg = dcg
  dcg_from relevant [] (suc limit) i dcg = dcg
  dcg_from relevant (r ∷ results) (suc limit) i dcg =
      dcg_from relevant results limit (suc i)
        (if is_in relevant r.id then float.add dcg (float.gain i) else dcg)

  unfoldable pub dcg_at_k : List (RetrievalResult F) → Dict Text Bool → ℕ → F
  unfolding dcg_from
  dcg_at_k results relevant k =
      dcg_from relevant results (min k (length results)) 0 (float.of_nat 0)

  ideal_from : ℕ → ℕ → F → F
  ideal_from zero i idcg = idcg
  ideal_from (suc limit) i idcg = ideal_from limit (suc i) (float.add idcg (float.gain i))

  unfoldable pub ideal_dcg_at_k : ℕ → ℕ → F
  unfolding ideal_from
  ideal_dcg_at_k num_relevant k = ideal_from (min k num_relevant) 0 (float.of_nat 0)

  unfoldable pub ndcg_at_k : List (RetrievalResult F) → Dict Text Bool → ℕ → F
  unfolding dcg_at_k ideal_dcg_at_k
  ndcg_at_k results relevant k =
      let dcg = dcg_at_k results relevant k in
      let idcg = ideal_dcg_at_k (length relevant) k in
      if float.is_zero idcg then float.of_nat 0 else float.divide dcg idcg

  precisions_from : Dict Text Bool → List (RetrievalResult F) → ℕ → ℕ → F → F
  unfolding is_in
  precisions_from relevant [] i count sum = sum
  precisions_from relevant (r ∷ results) i count sum = elim (is_in relevant r.id) [
    | false ↦ precisions_from relevant results (suc i) count sum
    | true ↦
        precisions_from relevant results (suc i) (count + 1)
          (float.add sum (float.divide (float.of_nat (count + 1)) (float.of_nat (i + 1))))
  ]

  unfoldable pub average_precision : List (RetrievalResult F) → Dict Text Bool → F
  unfolding precisions_from
  average_precision results relevant =
      if length relevant == 0
      then float.of_nat 0
      else float.divide (precisions_from relevant results 0 0 (float.of_nat 0))
          (float.of_nat (length relevant))

  unfoldable pub sum_from : List F → F → F
  sum_from [] sum = sum
  sum_from (v ∷ values) sum = sum_from values (float.add sum v)

  unfoldable pub mean : List F → F
  unfolding sum_from
  mean [] = float.of_nat 0
  mean (v ∷ values) =
      float.divide (sum_from (v ∷ values) (float.of_nat 0)) (float.of_nat (length (v ∷ values)))

  -- `sorted[i]`; the code's indices are in range.
  element : List F → ℕ → F
  element values i = elim (get_elem? values i) [ none ↦ float.of_nat 0 | some v ↦ v ]

  unfoldable pub percentile : List F → F → F
  unfolding sort_slice element
  percentile [] p = float.of_nat 0
  percentile (v ∷ values) p =
      let sorted = sort_slice float.less (v ∷ values) in
      let index =
        float.mul (float.divide p (float.of_nat 100)) (float.of_nat (length sorted - 1)) in
      let lower = float.floor index in
      let upper = float.ceil index in
      let weight = float.sub index (float.of_nat lower) in
      if lower == upper
      then element sorted lower
      else float.add (float.mul (element sorted lower) (float.sub (float.of_nat 1) weight))
          (float.mul (element sorted upper) weight)
