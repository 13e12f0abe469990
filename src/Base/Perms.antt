-- ===== src/Base/Perms.antt =====
-- Rearrangements of lists of lists.
use mathlib.Core.Path.{◌≡◌, sym, subst}
use mathlib.Core.Logic.{∥∥₁_elim}
use mathlib.Core.List.{List, [], ◌∷◌, ◌++◌, append_assoc, Perm, Perm-prop, perm_append_comm, Permᴰ}
use mathlib.Core.List.Perm

module _ {ℓ} {A : Type ℓ} where
  abbrev pub flatten : List (List A) → List A
  flatten [] = []
  flatten (xs ∷ xss) = xs ++ flatten xss

  pub Perm-of_eq : {xs ys : List A} → xs ≡ ys → Perm xs ys
  Perm-of_eq {xs} e = subst (λ zs. Perm xs zs) e (Perm.refl xs)

  -- Two blocks change their places.
  swap_blocks : (xs ys zs : List A) → Perm (xs ++ (ys ++ zs)) (ys ++ (xs ++ zs))
  swap_blocks xs ys zs = Perm.trans (Perm-of_eq (sym (append_assoc xs ys zs))) (
      Perm.trans (Perm.append_right zs (perm_append_comm xs ys))
        (Perm-of_eq (append_assoc ys xs zs)))

  flatten-Permᴰ : {xss yss : List (List A)} → Permᴰ xss yss → Perm (flatten xss) (flatten yss)
  flatten-Permᴰ Permᴰ.nil = Perm.refl []
  flatten-Permᴰ (Permᴰ.cons e p) = Perm.append (Perm-of_eq e) (flatten-Permᴰ p)
  flatten-Permᴰ (Permᴰ.swap {a} {b} {a'} {b'} {l} e e') =
      Perm.trans (swap_blocks a b (flatten l))
        (Perm.append (Perm-of_eq e') (Perm.append_right (flatten l) (Perm-of_eq e)))
  flatten-Permᴰ (Permᴰ.trans p q) = Perm.trans (flatten-Permᴰ p) (flatten-Permᴰ q)

  pub flatten-Perm : {xss yss : List (List A)} → Perm xss yss → Perm (flatten xss) (flatten yss)
  flatten-Perm p = ∥∥₁_elim p Perm-prop (λ d. flatten-Permᴰ d)
