-- ===== src/Rag/Evaluation/Tests.antt =====
-- Runs of the metrics at concrete inputs, and their theorem there. A number is a fraction.
use syara_ai.Base.{
  ℕ, ◌+◌, ◌-◌, ◌*◌, ◌/◌, ◌≤◌, ◌≡◌, refl, false, List, [], ◌∷◌, ◌==◌, ltb, if◌then◌else◌, Text,
  codes, text_equality, arith,
}
use syara_ai.Base.{text_eq_false→ne}
use syara_ai.Rag.Evaluation.{
  Numbers, RetrievalResult, relevant_set, precision_at_k, recall_at_k, hit_at_k, reciprocal_rank,
}
use syara_ai.Rag.Evaluation.Counts.{precision_at_k-recall_at_k}

abbrev fractions : Numbers (ℕ × ℕ)
fractions = record {
  of_nat = λ n. (n, 1);
  add = λ (a, b) (c, d). (a * d + c * b, b * d);
  sub = λ (a, b) (c, d). (a * d - c * b, b * d);
  mul = λ (a, b) (c, d). (a * c, b * d);
  divide = λ (a, b) (c, d). (a * d, b * c);
  less = λ (a, b) (c, d). ltb (a * d) (c * b);
  is_zero = λ (a, b). a == 0;
  gain = λ i. (1, i + 1);
  floor = λ (a, b). a / b;
  ceil = λ (a, b). (a + b - 1) / b;
}

abbrev result : Text → RetrievalResult (ℕ × ℕ)
result id = record { id = id; score = (0, 1); is_relevant = false }

abbrev found : List (RetrievalResult (ℕ × ℕ))
found = result (codes "x") ∷ result (codes "a") ∷ result (codes "b") ∷ []

abbrev ids : List Text
ids = codes "a" ∷ codes "c" ∷ []

precision_at_k-recall_at_k_example :
    let relevant = relevant_set ids [] in
    (count : ℕ) × (count ≤ 3)
    × (count ≤ 2)
    × (precision_at_k fractions found relevant 3 ≡ (count * 1, 1 * 3))
    × (recall_at_k fractions found relevant 3 2 ≡ (count * 1, 1 * 2))
    × (hit_at_k fractions found relevant 3 ≡ ((if ltb 0 count then 1 else 0), 1))
precision_at_k-recall_at_k_example =
    precision_at_k-recall_at_k fractions found ids 3
      (
        (
          text_eq_false→ne (codes "a") (codes "x") refl,
          (text_eq_false→ne (codes "b") (codes "x") refl, tt),
        ),
        ((text_eq_false→ne (codes "b") (codes "a") refl, tt), (tt, tt)),
      )
      (omega arith) (omega arith)

first_rank : reciprocal_rank fractions found (relevant_set ids []) ≡ (1, 2)
unfolding reciprocal_rank relevant_set
first_rank = refl

-- A result that comes twice is counted twice: the recall is 2 of 1.
recall_above_one :
    let twice = result (codes "a") ∷ result (codes "a") ∷ [] in
    recall_at_k fractions twice (relevant_set (codes "a" ∷ []) []) 3 1 ≡ (2, 1)
unfolding recall_at_k relevant_set
recall_above_one = refl
