-- ===== src/Base/Lists.antt =====
-- Lists measured and cut by native numbers, under the library's names.
use Prim.Native.Nat.{ℕ, zero, suc, ◌+◌, ◌-◌, ◌≤◌, ◌<◌, min}
use mathlib.Core.Path.{◌≡◌, refl, ap, ◌∙◌}
use native.Mathlib.Decide.{dec_lt}
use mathlib.Core.Bool.{Bool, true, false, ◌&&◌, ◌||◌}
use mathlib.Core.Option.{Option, none, some}
use mathlib.Core.Logic.{inl, inr}
use syara_ai.Base.Tests.{leb, if◌then◌else◌, Bool-cases}
use mathlib.Core.List.{List, [], ◌∷◌, ◌++◌, map, reverse, reverse-append, append_assoc}
use native.Mathlib.Omega.{arith}

module _ {ℓ} {A : Type ℓ} where
  abbrev pub length : List A → ℕ
  length [] = 0
  length (x ∷ xs) = suc (length xs)

  abbrev pub take : ℕ → List A → List A
  take zero xs = []
  take (suc n) [] = []
  take (suc n) (x ∷ xs) = x ∷ take n xs

  abbrev pub drop : ℕ → List A → List A
  drop zero xs = xs
  drop (suc n) [] = []
  drop (suc n) (x ∷ xs) = drop n xs

  abbrev pub get_elem? : List A → ℕ → Option A
  get_elem? [] i = none
  get_elem? (x ∷ xs) zero = some x
  get_elem? (x ∷ xs) (suc i) = get_elem? xs i

  -- The last `n` elements: Go's `xs[len(xs)-n:]`, or all of them where there are fewer.
  abbrev pub last : ℕ → List A → List A
  last n xs = drop (length xs - n) xs

  abbrev pub all : (A → Bool) → List A → Bool
  all p [] = true
  all p (x ∷ xs) = p x && all p xs

  abbrev pub any : (A → Bool) → List A → Bool
  any p [] = false
  any p (x ∷ xs) = p x || any p xs

  abbrev pub All {κ} : (A → Type κ) → List A → Type κ
  All P [] = Unit
  All P (x ∷ xs) = P x × All P xs

  pub length-append : (xs ys : List A) → length (xs ++ ys) ≡ length xs + length ys
  length-append [] ys = omega arith
  length-append (x ∷ xs) ys = omega (arith, length-append xs ys)

  pub length-take : (n : ℕ) (xs : List A) → length (take n xs) ≡ min n (length xs)
  length-take zero xs = omega arith
  length-take (suc n) [] = omega arith
  length-take (suc n) (x ∷ xs) = omega (arith, length-take n xs)

  pub take-append-drop : (n : ℕ) (xs : List A) → take n xs ++ drop n xs ≡ xs
  take-append-drop zero xs = refl
  take-append-drop (suc n) [] = refl
  take-append-drop (suc n) (x ∷ xs) = ap (◌∷◌ x) (take-append-drop n xs)

  pub length-drop : (n : ℕ) (xs : List A) → length (drop n xs) ≡ length xs - n
  length-drop zero xs = omega arith
  length-drop (suc n) [] = omega arith
  length-drop (suc n) (x ∷ xs) = omega (arith, length-drop n xs)

  pub any-append : (p : A → Bool) (xs ys : List A) → any p (xs ++ ys) ≡ (any p xs || any p ys)
  any-append p [] ys = refl
  any-append p (x ∷ xs) ys = ground (arith, any-append p xs ys)

  pub All-append {κ} : (P : A → Type κ) (xs ys : List A) → All P xs → All P ys → All P (xs ++ ys)
  All-append P [] ys hx hy = hy
  All-append P (x ∷ xs) ys (p, hx) hy = (p, All-append P xs ys hx hy)

  pub All-map {κ μ} :
      (P : A → Type κ) (Q : A → Type μ) (xs : List A) → ((x : A) → P x → Q x) → All P xs → All Q xs
  All-map P Q [] f h = tt
  All-map P Q (x ∷ xs) f (p, h) = (f x p, All-map P Q xs f h)

module _ {ℓ} {A : Type ℓ} where
  pub length-reverse : (xs : List A) → length (reverse xs) ≡ length xs
  length-reverse [] = refl
  length-reverse (x ∷ xs) = omega (
    arith,
    ap length (reverse-append (x ∷ []) xs),
    length-append (reverse xs) (x ∷ []),
    length-reverse xs,
  )

  pub length-last : (n : ℕ) (xs : List A) → length (last n xs) ≡ min n (length xs)
  length-last n xs = omega (arith, length-drop (length xs - n) xs)

  pub last_of_le : (n : ℕ) (xs : List A) → length xs ≤ n → last n xs ≡ xs
  last_of_le n xs h = let e : length xs - n ≡ 0 = omega arith in ap (λ k. drop k xs) e

  drop-append_le : (k : ℕ) (xs ys : List A) → k ≤ length xs → drop k (xs ++ ys) ≡ drop k xs ++ ys
  drop-append_le zero xs ys h = refl
  drop-append_le (suc k) [] ys h = absurd (omega arith)
  drop-append_le (suc k) (x ∷ xs) ys h = drop-append_le k xs ys (omega arith)

  pub drop_one-drop : (k : ℕ) (xs : List A) → drop 1 (drop k xs) ≡ drop (suc k) xs
  drop_one-drop zero xs = refl
  drop_one-drop (suc k) [] = refl
  drop_one-drop (suc k) (x ∷ xs) = drop_one-drop k xs

  -- The window of the last elements slides at each append.
  pub last-append :
      (n : ℕ) (xs : List A) (y : A) → last (suc n) (xs ++ y ∷ []) ≡ last n xs ++ y ∷ []
  last-append n xs y =
      let e : length (xs ++ y ∷ []) - suc n ≡ length xs - n =
        omega (arith, length-append xs (y ∷ [])) in
      ap (λ k. drop k (xs ++ y ∷ [])) e ∙ drop-append_le (length xs - n) xs (y ∷ []) (omega arith)

  pub drop_one-last :
      (n : ℕ) (xs : List A) → suc n ≤ length xs → drop 1 (last (suc n) xs) ≡ last n xs
  drop_one-last n xs h =
      let e : suc (length xs - suc n) ≡ length xs - n = omega arith in
      drop_one-drop (length xs - suc n) xs ∙ ap (λ k. drop k xs) e

  -- Pushing onto a window of `n + 1` elements, the first of which goes where the window is full.
  pub last-append_slide :
      (n : ℕ) (h : List A) (x : A)
      → let es = last (suc n) h in
        (if leb (suc n) (length es) then drop 1 es else es) ++ x ∷ [] ≡ last (suc n) (h ++ x ∷ [])
  last-append_slide n h x = elim (Bool-cases (leb (suc n) (length (last (suc n) h)))) [
    | inl full ↦
        rw (full, last-append n h x)
          (ap (λ l. l ++ x ∷ []) (drop_one-last n h (ground (arith, length-last (suc n) h))))
    | inr room ↦
        let short : length h ≤ n = ground (arith, length-last (suc n) h) in
        rw (room, last-append n h x, last_of_le (suc n) h (omega arith), last_of_le n h short) refl
  ]

module _ {ℓ κ} {A : Type ℓ} {B : Type κ} where
  pub length-map : (f : A → B) (xs : List A) → length (map f xs) ≡ length xs
  length-map f [] = refl
  length-map f (x ∷ xs) = ap suc (length-map f xs)

module _ {ℓ} {A : Type ℓ} where
  get_elem?-append_left :
      (xs ys : List A) (i : ℕ) → i < length xs → get_elem? (xs ++ ys) i ≡ get_elem? xs i
  get_elem?-append_left [] ys i h = absurd (omega arith)
  get_elem?-append_left (x ∷ xs) ys zero h = refl
  get_elem?-append_left (x ∷ xs) ys (suc i) h = get_elem?-append_left xs ys i (omega arith)

  get_elem?-concat : (xs : List A) (y : A) → get_elem? (xs ++ y ∷ []) (length xs) ≡ some y
  get_elem?-concat [] y = refl
  get_elem?-concat (x ∷ xs) y = get_elem?-concat xs y

  -- Counting from the end.
  pub get_elem?-reverse :
      (xs : List A) (i : ℕ)
      → i < length xs
      → get_elem? (reverse xs) i ≡ get_elem? xs (length xs - 1 - i)
  get_elem?-reverse [] i h = absurd (omega arith)
  get_elem?-reverse (x ∷ xs) i h = elim (dec_lt i (length xs)) [
    | yes p ↦
        let e : length (x ∷ xs) - 1 - i ≡ suc (length xs - 1 - i) = omega arith in
        rw (reverse-append (x ∷ []) xs, e)
          (get_elem?-append_left (reverse xs) (x ∷ []) i (omega (arith, length-reverse xs))
            ∙ get_elem?-reverse xs i p)
    | no p ↦
        let e : length (x ∷ xs) - 1 - i ≡ 0 = omega arith in
        let e' : i ≡ length (reverse xs) = omega (arith, length-reverse xs) in
        rw (reverse-append (x ∷ []) xs, e)
          (ap (get_elem? (reverse xs ++ x ∷ [])) e' ∙ get_elem?-concat (reverse xs) x)
  ]

  pub get_elem?-drop :
      (i : ℕ) (xs : List A)
      → i < length xs
      → (x : A) × (get_elem? xs i ≡ some x) × (drop i xs ≡ x ∷ drop (suc i) xs)
  get_elem?-drop i [] h = absurd (omega arith)
  get_elem?-drop zero (x ∷ xs) h = (x, refl, refl)
  get_elem?-drop (suc i) (x ∷ xs) h = get_elem?-drop i xs (omega arith)

  pub reverse-append_cons : (x : A) (xs ys : List A) → reverse (x ∷ xs) ++ ys ≡ reverse xs ++ x ∷ ys
  reverse-append_cons x xs ys =
      rw (reverse-append (x ∷ []) xs) (append_assoc (reverse xs) (x ∷ []) ys)
