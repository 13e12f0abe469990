-- ===== src/Base/Sort.antt =====
-- Go's `sort.Slice`: a sorted rearrangement. The insertion sort here keeps the order of equal
-- elements, which Go does not promise.
use mathlib.Core.Path.{◌≡◌}
use mathlib.Core.Logic.{inl, inr}
use mathlib.Core.Bool.{Bool, true, false}
use mathlib.Core.List.{List, [], ◌∷◌}
use mathlib.Core.List.Perm
use mathlib.Core.List.{Perm}
use syara_ai.Base.Tests.{if◌then◌else◌, Bool-cases}
use syara_ai.Base.Lists.{All, All-map}

module _ {ℓ} {A : Type ℓ} (before : A → A → Bool) where
  insert_sorted : A → List A → List A
  insert_sorted x [] = x ∷ []
  insert_sorted x (y ∷ ys) =
      let rest = insert_sorted x ys in if before y x then y ∷ rest else x ∷ y ∷ ys

  -- Sorted by the test `before`, as `sort.Slice` does with its argument `less`.
  unfoldable pub sort_slice : List A → List A
  unfolding insert_sorted
  sort_slice [] = []
  sort_slice (x ∷ xs) = insert_sorted x (sort_slice xs)

  insert_sorted-Perm : (x : A) (ys : List A) → Perm (insert_sorted x ys) (x ∷ ys)
  unfolding insert_sorted
  insert_sorted-Perm x [] = Perm.refl (x ∷ [])
  insert_sorted-Perm x (y ∷ ys) = elim (Bool-cases (before y x)) [
    | inl later ↦ rw later (Perm.trans (Perm.cons y (insert_sorted-Perm x ys)) (Perm.swap x y ys))
    | inr here ↦ rw here (Perm.refl (x ∷ y ∷ ys))
  ]

  pub sort_slice-Perm : (xs : List A) → Perm (sort_slice xs) xs
  unfolding sort_slice
  sort_slice-Perm [] = Perm.refl []
  sort_slice-Perm (x ∷ xs) =
      Perm.trans (insert_sorted-Perm x (sort_slice xs)) (Perm.cons x (sort_slice-Perm xs))

  -- No element is before an earlier one.
  abbrev pub IsSorted : List A → Type ℓ
  IsSorted [] = Unit
  IsSorted (x ∷ xs) = All (λ z. before z x ≡ false) xs × IsSorted xs

  module _ (asym : (x y : A) → before x y ≡ true → before y x ≡ false)
      (trans : (x y z : A) → before z y ≡ false → before y x ≡ false → before z x ≡ false) where
    insert_sorted-All :
        (w x : A) (ys : List A)
        → before x w ≡ false
        → All (λ z. before z w ≡ false) ys
        → All (λ z. before z w ≡ false) (insert_sorted x ys)
    unfolding insert_sorted
    insert_sorted-All w x [] p h = (p, tt)
    insert_sorted-All w x (y ∷ ys) p (q, h) = elim (Bool-cases (before y x)) [
      | inl later ↦ rw later (q, insert_sorted-All w x ys p h)
      | inr here ↦ rw here (p, (q, h))
    ]

    insert_sorted-IsSorted : (x : A) (ys : List A) → IsSorted ys → IsSorted (insert_sorted x ys)
    unfolding insert_sorted
    insert_sorted-IsSorted x [] h = (tt, tt)
    insert_sorted-IsSorted x (y ∷ ys) (q, h) = elim (Bool-cases (before y x)) [
      | inl later ↦
          rw later (insert_sorted-All y x ys (asym y x later) q, insert_sorted-IsSorted x ys h)
      | inr here ↦ rw here (
        (
          here,
          All-map (λ z. before z y ≡ false) (λ z. before z x ≡ false) ys (λ z p. trans x y z p here)
              q,
        ),
        (q, h),
      )
    ]

    pub sort_slice-IsSorted : (xs : List A) → IsSorted (sort_slice xs)
    unfolding sort_slice
    sort_slice-IsSorted [] = tt
    sort_slice-IsSorted (x ∷ xs) = insert_sorted-IsSorted x (sort_slice xs) (sort_slice-IsSorted xs)
