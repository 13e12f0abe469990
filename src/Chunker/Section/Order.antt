-- ===== src/Chunker/Section/Order.antt =====
-- internal/chunker/chunker.go: the boundaries sorted and without duplicates.
use syara_ai.Base.{
  ℕ, zero, suc, ◌-◌, ◌≤◌, ◌<◌, ◌≡◌, refl, subst, sym, ap, ◌∙◌, Bool, Bool-cases, inl, inr, List, [],
  ◌∷◌, ◌++◌, append-nil, ltb, ltb→lt, ltb_false→le, ◌==◌, length, any, All, All-map, arith,
}
use syara_ai.Chunker.Section.{
  Boundary, bubble, bubbles, sort_boundaries, distinct_after, deduplicate_boundaries,
}

-- A run of neighbour swaps takes the last of the greatest of `x ∷ xs` behind the others, and keeps
-- what holds of them all.
record IsBubbled (x : Boundary) (xs back bs : List Boundary) : Type 1 where
  front : List Boundary
  greatest : Boundary
  split : bs ≡ front ++ greatest ∷ back
  same_length : length front ≡ length xs
  upper : All (λ b. b.pos ≤ greatest.pos) front
  first : x.pos ≤ greatest.pos
  keeps : (P : Boundary → Type 0) → All P (x ∷ xs) → All P front × P greatest

bubble-IsBubbled :
    (n : ℕ) (x : Boundary) (xs back : List Boundary)
    → length xs ≡ n
    → IsBubbled x xs back (bubble n ((x ∷ xs) ++ back))
unfolding bubble
bubble-IsBubbled zero x [] back e = record {
  front = [];
  greatest = x;
  split = refl;
  same_length = refl;
  upper = tt;
  first = omega arith;
  keeps = λ P h. (tt, h.0);
}
bubble-IsBubbled zero x (y ∷ ys) back e = absurd (omega arith)
bubble-IsBubbled (suc n) x [] back e = absurd (omega arith)
bubble-IsBubbled (suc n) x (y ∷ ys) back e = elim (Bool-cases (ltb y.pos x.pos)) [
  | inl swap ↦
      let ih = bubble-IsBubbled n x ys back (omega arith) in
      rw (swap, bubble)
        (record {
          front = y ∷ ih.front;
          greatest = ih.greatest;
          split = ap (◌∷◌ y) ih.split;
          same_length = omega (arith, ih.same_length);
          upper = (omega (arith, ltb→lt y.pos x.pos swap, ih.first), ih.upper);
          first = ih.first;
          keeps = λ P h. let (k, g) = ih.keeps P (h.0, h.1.1) in ((h.1.0, k), g);
        })
  | inr stay ↦
      let ih = bubble-IsBubbled n y ys back (omega arith) in
      let le : x.pos ≤ ih.greatest.pos = omega (arith, ltb_false→le y.pos x.pos stay, ih.first) in
      rw (stay, bubble)
        (record {
          front = x ∷ ih.front;
          greatest = ih.greatest;
          split = ap (◌∷◌ x) ih.split;
          same_length = omega (arith, ih.same_length);
          upper = (le, ih.upper);
          first = le;
          keeps = λ P h. let (k, g) = ih.keeps P h.1 in ((h.0, k), g);
        })
]

abbrev pub IsAscending : List Boundary → Type 0
IsAscending [] = Unit
IsAscending (x ∷ xs) = All (λ y. x.pos ≤ y.pos) xs × IsAscending xs

abbrev pub IsStrictlyAscending : List Boundary → Type 0
IsStrictlyAscending [] = Unit
IsStrictlyAscending (x ∷ xs) = All (λ y. x.pos < y.pos) xs × IsStrictlyAscending xs

-- Nothing of the front is above the back.
abbrev IsBelow : List Boundary → Boundary → Type 0
IsBelow back f = All (λ b. f.pos ≤ b.pos) back

All-both :
    (P Q R : Boundary → Type 0) (xs : List Boundary)
    → ((x : Boundary) → P x → Q x → R x)
    → All P xs
    → All Q xs
    → All R xs
All-both P Q R [] f p q = tt
All-both P Q R (x ∷ xs) f (p, ps) (q, qs) = (f x p q, All-both P Q R xs f ps qs)

bubbles-IsAscending :
    (n : ℕ) (front back : List Boundary)
    → length front ≡ suc n
    → IsAscending back
    → All (IsBelow back) front
    → IsAscending (bubbles n (front ++ back))
unfolding bubbles
bubbles-IsAscending n [] back e up below = absurd (omega arith)
bubbles-IsAscending zero (x ∷ []) back e up below = (below.0, up)
bubbles-IsAscending zero (x ∷ y ∷ ys) back e up below = absurd (omega arith)
bubbles-IsAscending (suc n) (x ∷ xs) back e up below =
    let b = bubble-IsBubbled (suc n) x xs back (omega arith) in
    let (fronts, top) = b.keeps (IsBelow back) below in
    let both : All (IsBelow (b.greatest ∷ back)) b.front =
      All-both (λ f. f.pos ≤ b.greatest.pos) (IsBelow back) (IsBelow (b.greatest ∷ back)) b.front
        (λ f p q. (p, q)) b.upper fronts in
    subst (λ bs. IsAscending (bubbles n bs)) (sym b.split)
      (bubbles-IsAscending n b.front (b.greatest ∷ back) (omega (arith, b.same_length)) (top, up)
        both)

sort_boundaries-IsAscending : (bs : List Boundary) → IsAscending (sort_boundaries bs)
unfolding sort_boundaries bubbles
sort_boundaries-IsAscending [] = tt
sort_boundaries-IsAscending (b ∷ bs) =
    let n : length (b ∷ bs) ≡ suc (length (b ∷ bs) - 1) = omega arith in
    subst (λ cs. IsAscending (bubbles (length (b ∷ bs) - 1) cs)) (append-nil (b ∷ bs))
      (bubbles-IsAscending (length (b ∷ bs) - 1) (b ∷ bs) [] n tt (below_nothing (b ∷ bs)))
  where
    below_nothing : (cs : List Boundary) → All (IsBelow []) cs
    below_nothing [] = tt
    below_nothing (c ∷ cs) = (tt, below_nothing cs)

-- Sorting keeps which boundaries there are.
bubble-any : (p : Boundary → Bool) (n : ℕ) (bs : List Boundary) → any p (bubble n bs) ≡ any p bs
unfolding bubble
bubble-any p zero bs = refl
bubble-any p (suc n) [] = refl
bubble-any p (suc n) (a ∷ []) = refl
bubble-any p (suc n) (a ∷ b ∷ bs) = elim (Bool-cases (ltb b.pos a.pos)) [
  | inl swap ↦ rw (swap, bubble) (ground (arith, bubble-any p n (a ∷ bs)))
  | inr stay ↦ rw (stay, bubble) (ground (arith, bubble-any p n (b ∷ bs)))
]

bubbles-any : (p : Boundary → Bool) (n : ℕ) (bs : List Boundary) → any p (bubbles n bs) ≡ any p bs
unfolding bubbles
bubbles-any p zero bs = refl
bubbles-any p (suc n) bs = bubbles-any p n (bubble (suc n) bs) ∙ bubble-any p (suc n) bs

bubble-All : (P : Boundary → Type 0) (n : ℕ) (bs : List Boundary) → All P bs → All P (bubble n bs)
unfolding bubble
bubble-All P zero bs h = h
bubble-All P (suc n) [] h = h
bubble-All P (suc n) (a ∷ []) h = h
bubble-All P (suc n) (a ∷ b ∷ bs) (p, (q, h)) = elim (Bool-cases (ltb b.pos a.pos)) [
  | inl swap ↦ rw (swap, bubble) (q, bubble-All P n (a ∷ bs) (p, h))
  | inr stay ↦ rw (stay, bubble) (p, bubble-All P n (b ∷ bs) (q, h))
]

bubbles-All : (P : Boundary → Type 0) (n : ℕ) (bs : List Boundary) → All P bs → All P (bubbles n bs)
unfolding bubbles
bubbles-All P zero bs h = h
bubbles-All P (suc n) bs h = bubbles-All P n (bubble (suc n) bs) (bubble-All P (suc n) bs h)

distinct_after-All :
    (P : Boundary → Type 0) (b : Boundary) (bs : List Boundary)
    → P b
    → All P bs
    → All P (distinct_after b bs)
unfolding distinct_after
distinct_after-All P b [] p h = (p, tt)
distinct_after-All P b (c ∷ bs) p (q, h) = elim (Bool-cases (c.pos == b.pos)) [
  | inl same ↦ rw (same, distinct_after) (distinct_after-All P b bs p h)
  | inr other ↦ rw (other, distinct_after) (p, distinct_after-All P c bs q h)
]

distinct_after-IsStrictlyAscending :
    (b : Boundary) (bs : List Boundary)
    → IsAscending (b ∷ bs)
    → IsStrictlyAscending (distinct_after b bs)
unfolding distinct_after
distinct_after-IsStrictlyAscending b [] h = (tt, tt)
distinct_after-IsStrictlyAscending b (c ∷ bs) ((le, les), (up, h)) =
    elim (Bool-cases (c.pos == b.pos)) [
      | inl same ↦ rw (same, distinct_after) (distinct_after-IsStrictlyAscending b bs (les, h))
      | inr other ↦
          let lt : b.pos < c.pos = ground arith in
          rw (other, distinct_after)
            (
              distinct_after-All (λ y. b.pos < y.pos) c bs lt
                  (All-map (λ y. c.pos ≤ y.pos) (λ y. b.pos < y.pos) bs (λ y le'. omega arith) up),
              distinct_after-IsStrictlyAscending c bs (up, h),
            )
    ]

abbrev pub stands_at : ℕ → Boundary → Bool
stands_at pos b = b.pos == pos

distinct_after-any :
    (pos : ℕ) (b : Boundary) (bs : List Boundary)
    → any (stands_at pos) (distinct_after b bs) ≡ any (stands_at pos) (b ∷ bs)
unfolding distinct_after
distinct_after-any pos b [] = refl
distinct_after-any pos b (c ∷ bs) = elim (Bool-cases (c.pos == b.pos)) [
  | inl same ↦ rw (same, distinct_after) (ground (arith, distinct_after-any pos b bs))
  | inr other ↦ rw (other, distinct_after) (ground (arith, distinct_after-any pos c bs))
]

-- Sorted and freed of duplicates, the boundaries stand at rising positions, which are those of the
-- boundaries that there were.
pub deduplicate_boundaries-sort_boundaries :
    (bs : List Boundary) (pos : ℕ)
    → let sorted = deduplicate_boundaries (sort_boundaries bs) in
      IsStrictlyAscending sorted × (any (stands_at pos) sorted ≡ any (stands_at pos) bs)
unfolding deduplicate_boundaries sort_boundaries
deduplicate_boundaries-sort_boundaries bs pos =
    let kept = bubbles-any (stands_at pos) (length bs - 1) bs in
    let (up, same) = distinct (sort_boundaries bs) (sort_boundaries-IsAscending bs) in
    (up, same ∙ kept)
  where
    distinct :
        (cs : List Boundary)
        → IsAscending cs
        → IsStrictlyAscending (deduplicate_boundaries cs)
          × (any (stands_at pos) (deduplicate_boundaries cs) ≡ any (stands_at pos) cs)
    distinct [] h = (tt, refl)
    distinct (c ∷ cs) h = (distinct_after-IsStrictlyAscending c cs h, distinct_after-any pos c cs)

pub deduplicate_boundaries-All :
    (P : Boundary → Type 0) (bs : List Boundary)
    → All P bs
    → All P (deduplicate_boundaries (sort_boundaries bs))
unfolding deduplicate_boundaries sort_boundaries
deduplicate_boundaries-All P bs h =
    distinct (sort_boundaries bs) (bubbles-All P (length bs - 1) bs h)
  where
    distinct : (cs : List Boundary) → All P cs → All P (deduplicate_boundaries cs)
    distinct [] k = tt
    distinct (c ∷ cs) (p, k) = distinct_after-All P c cs p k
