-- ===== src/Rag/Evaluation/Calculate.antt =====
-- internal/rag/evaluation/metrics.go: the metrics over all queries.
use syara_ai.Base.{
  ℕ, suc, Bool, ◌||◌, List, [], ◌∷◌, map, ltb, if◌then◌else◌, length, Text, text_equality, Dict,
}
use syara_ai.Rag.Evaluation.{
  Numbers, QueryResult, relevant_set, precision_at_k, recall_at_k, hit_at_k, reciprocal_rank,
  ndcg_at_k, average_precision, mean, percentile,
}

-- One metric at 1, 3, 5 and 10.
pub record AtRanks (F : Type 0) : Type 0 where
  pub at_1 : F
  pub at_3 : F
  pub at_5 : F
  pub at_10 : F

pub record EvaluationMetrics (F : Type 0) : Type 0 where
  pub precision : AtRanks F
  pub recall : AtRanks F
  pub hit_rate : AtRanks F
  pub mrr : F
  pub ndcg_at_5 : F
  pub ndcg_at_10 : F
  pub mean_average_precision : F
  pub mean_latency_ms : F
  pub median_latency_ms : F
  pub p95_latency_ms : F
  pub p99_latency_ms : F
  pub total_queries : ℕ
  pub queries_with_hits : ℕ

module _ {F : Type 0} (float : Numbers F) where
  -- The sum of a metric over the queries.
  unfoldable pub total_of : (QueryResult F → Dict Text Bool → F) → List (QueryResult F) → F → F
  unfolding relevant_set
  total_of metric [] sum = sum
  total_of metric (q ∷ queries) sum =
      total_of metric queries (float.add sum (metric q (relevant_set q.relevant_ids [])))

  -- The recall of a query without relevant documents is not added.
  unfoldable pub total_recall : ℕ → List (QueryResult F) → F → F
  unfolding relevant_set recall_at_k
  total_recall k [] sum = sum
  total_recall k (q ∷ queries) sum = total_recall k queries (
      if ltb 0 (length q.relevant_ids)
      then float.add sum
          (recall_at_k float q.results (relevant_set q.relevant_ids []) k (length q.relevant_ids))
      else sum)

  unfoldable pub hit_queries : List (QueryResult F) → ℕ
  unfolding relevant_set hit_at_k
  hit_queries [] = 0
  hit_queries (q ∷ queries) =
      let count = hit_queries queries in
      let relevant = relevant_set q.relevant_ids [] in
      let is_hit = λ (k : ℕ). float.less (float.of_nat 0) (hit_at_k float q.results relevant k) in
      if is_hit 1 || (is_hit 3 || (is_hit 5 || is_hit 10)) then suc count else count

  -- A metric at the four ranks.
  abbrev at_ranks : (ℕ → F) → AtRanks F
  at_ranks f = record { at_1 = f 1; at_3 = f 3; at_5 = f 5; at_10 = f 10 }

  unfoldable pub calculate : List (QueryResult F) → EvaluationMetrics F
  unfolding total_of total_recall hit_queries precision_at_k hit_at_k reciprocal_rank ndcg_at_k
      average_precision mean percentile
  calculate [] =
      let zero = float.of_nat 0 in
      record {
        precision = at_ranks (λ k. zero);
        recall = at_ranks (λ k. zero);
        hit_rate = at_ranks (λ k. zero);
        mrr = zero;
        ndcg_at_5 = zero;
        ndcg_at_10 = zero;
        mean_average_precision = zero;
        mean_latency_ms = zero;
        median_latency_ms = zero;
        p95_latency_ms = zero;
        p99_latency_ms = zero;
        total_queries = 0;
        queries_with_hits = 0;
      }
  calculate (q ∷ queries) =
      let qs = q ∷ queries in
      let n = float.of_nat (length qs) in
      let average = λ (metric : QueryResult F → Dict Text Bool → F).
        float.divide (total_of metric qs (float.of_nat 0)) n in
      let latencies = map (λ (r : QueryResult F). float.of_nat r.latency_ms) qs in
      record {
        precision =
            at_ranks (λ k. average (λ r relevant. precision_at_k float r.results relevant k));
        recall = at_ranks (λ k. float.divide (total_recall k qs (float.of_nat 0)) n);
        hit_rate = at_ranks (λ k. average (λ r relevant. hit_at_k float r.results relevant k));
        mrr = average (λ r relevant. reciprocal_rank float r.results relevant);
        ndcg_at_5 = average (λ r relevant. ndcg_at_k float r.results relevant 5);
        ndcg_at_10 = average (λ r relevant. ndcg_at_k float r.results relevant 10);
        mean_average_precision = average (λ r relevant. average_precision float r.results relevant);
        mean_latency_ms = mean float latencies;
        median_latency_ms = percentile float latencies (float.of_nat 50);
        p95_latency_ms = percentile float latencies (float.of_nat 95);
        p99_latency_ms = percentile float latencies (float.of_nat 99);
        total_queries = length qs;
        queries_with_hits = hit_queries qs;
      }
