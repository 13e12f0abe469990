-- ===== src/Base/Maps.antt =====
-- A Go map as an association list: `lookup` is `m[k]`, `insert` is `m[k] = v`, `remove` is
-- `delete(m, k)`. The order of the pairs stands for one order in which Go may range over the map.
use mathlib.Core.Path.{◌≡◌, refl}
use mathlib.Core.Logic.{◌≢◌}
use mathlib.Core.Option.{Option, none, some}
use mathlib.Core.List.{List, [], ◌∷◌, map}
use native.Mathlib.Omega.{arith}
use mathlib.Core.Logic.{inl, inr}
use syara_ai.Base.Tests.{if◌then◌else◌, Bool-cases}
use syara_ai.Base.Lists.{All}
use syara_ai.Base.Equality.{Eq}

abbrev pub Dict {ℓ κ} : Type ℓ → Type κ → Type (ℓ ⊔ κ)
Dict K V = List (K × V)

abbrev pub keys {ℓ κ} : {K : Type ℓ} {V : Type κ} → Dict K V → List K
keys = map (λ p. p.0)

abbrev pub values {ℓ κ} : {K : Type ℓ} {V : Type κ} → Dict K V → List V
values = map (λ p. p.1)

module _ {ℓ κ} {K : Type ℓ} {V : Type κ} ⦃e : Eq K⦄ where
  unfoldable pub lookup : K → Dict K V → Option V
  lookup k [] = none
  lookup k ((j, v) ∷ m) = if e.beq j k then some v else lookup k m

  unfoldable pub insert : K → V → Dict K V → Dict K V
  insert k v [] = (k, v) ∷ []
  insert k v ((j, w) ∷ m) = if e.beq j k then (k, v) ∷ m else (j, w) ∷ insert k v m

  unfoldable pub remove : K → Dict K V → Dict K V
  remove k [] = []
  remove k ((j, w) ∷ m) = let rest = remove k m in if e.beq j k then rest else (j, w) ∷ rest

  pub lookup-insert :
      (k j : K) (v : V) (m : Dict K V)
      → lookup j (insert k v m) ≡ (if e.beq k j then some v else lookup j m)
  unfolding lookup insert
  lookup-insert k j v [] = refl
  lookup-insert k j v ((i, w) ∷ m) =
      ground (arith, e.beq_iff k j, e.beq_iff i k, e.beq_iff i j, lookup-insert k j v m)

  pub lookup-remove :
      (k j : K) (m : Dict K V) → lookup j (remove k m) ≡ (if e.beq k j then none else lookup j m)
  unfolding lookup remove
  lookup-remove k j [] = ground arith
  lookup-remove k j ((i, w) ∷ m) =
      ground (arith, e.beq_iff k j, e.beq_iff i k, e.beq_iff i j, lookup-remove k j m)

  pub lookup-insert_self : (k : K) (v : V) (m : Dict K V) → lookup k (insert k v m) ≡ some v
  lookup-insert_self k v m = ground (arith, lookup-insert k k v m, e.beq_iff k k)

  pub lookup-insert_ne :
      (k j : K) (v : V) (m : Dict K V) → k ≢ j → lookup j (insert k v m) ≡ lookup j m
  lookup-insert_ne k j v m h = ground (arith, lookup-insert k j v m, e.beq_iff k j)

  pub lookup-remove_self : (k : K) (m : Dict K V) → lookup k (remove k m) ≡ none
  lookup-remove_self k m = ground (arith, lookup-remove k k m, e.beq_iff k k)

  pub lookup-remove_ne : (k j : K) (m : Dict K V) → k ≢ j → lookup j (remove k m) ≡ lookup j m
  lookup-remove_ne k j m h = ground (arith, lookup-remove k j m, e.beq_iff k j)

  -- No key stands twice.
  abbrev pub IsDistinct : Dict K V → Type κ
  IsDistinct [] = Unit
  IsDistinct ((k, v) ∷ m) = (lookup k m ≡ none) × IsDistinct m

  pub insert-IsDistinct : (k : K) (v : V) (m : Dict K V) → IsDistinct m → IsDistinct (insert k v m)
  unfolding insert
  insert-IsDistinct k v [] h = (unfold lookup in refl, tt)
  insert-IsDistinct k v ((j, w) ∷ m) (new, h) = elim (Bool-cases (e.beq j k)) [
    | inl same ↦ rw same (rw (← (e.beq_iff j k).0 same) new, h)
    | inr other ↦ rw other (
      ground (arith, lookup-insert k j v m, e.beq_iff k j, e.beq_iff j k),
      insert-IsDistinct k v m h,
    )
  ]

  pub remove-IsDistinct : (k : K) (m : Dict K V) → IsDistinct m → IsDistinct (remove k m)
  unfolding remove
  remove-IsDistinct k [] h = tt
  remove-IsDistinct k ((j, w) ∷ m) (new, h) = elim (Bool-cases (e.beq j k)) [
    | inl same ↦ rw same (remove-IsDistinct k m h)
    | inr other ↦ rw other (ground (arith, lookup-remove k j m), remove-IsDistinct k m h)
  ]

  module _ {μ} (P : K × V → Type μ) where
    pub insert-All : (k : K) (v : V) (m : Dict K V) → P (k, v) → All P m → All P (insert k v m)
    unfolding insert
    insert-All k v [] p h = (p, tt)
    insert-All k v ((j, w) ∷ m) p (q, h) = elim (Bool-cases (e.beq j k)) [
      | inl same ↦ rw same (p, h)
      | inr other ↦ rw other (q, insert-All k v m p h)
    ]

    pub remove-All : (k : K) (m : Dict K V) → All P m → All P (remove k m)
    unfolding remove
    remove-All k [] h = tt
    remove-All k ((j, w) ∷ m) (q, h) = elim (Bool-cases (e.beq j k)) [
      | inl same ↦ rw same (remove-All k m h)
      | inr other ↦ rw other (q, remove-All k m h)
    ]

    -- What holds of every pair holds of the one that a lookup finds.
    pub lookup-All : (k : K) (v : V) (m : Dict K V) → lookup k m ≡ some v → All P m → P (k, v)
    unfolding lookup
    lookup-All k v [] f h = absurd (cc)
    lookup-All k v ((j, w) ∷ m) f (q, h) = elim (Bool-cases (e.beq j k)) [
      | inl same ↦ let f' : w ≡ v = ground arith in rw (← (e.beq_iff j k).0 same, ← f') q
      | inr other ↦ lookup-All k v m (ground arith) h
    ]

-- Changing every value under its key.
pub lookup-map_values {ℓ κ μ} :
    {K : Type ℓ} {V : Type κ} {U : Type μ} ⦃e : Eq K⦄ (f : V → U) (k : K) (m : Dict K V)
    → lookup k (map (λ p. (p.0, f p.1)) m) ≡ elim (lookup k m) [ none ↦ none | some v ↦ some (f v) ]
unfolding lookup
lookup-map_values f k [] = refl
lookup-map_values ⦃e⦄ f k ((j, w) ∷ m) = ground (arith, lookup-map_values f k m)
