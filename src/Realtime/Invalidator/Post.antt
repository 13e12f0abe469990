-- ===== src/Realtime/Invalidator/Post.antt =====
-- Total correctness of computations that may not end.
use syara_ai.Base.{Option, none, some, ◌≡◌, refl, ◌⊎◌, inl, inr, Text}
use syara_ai.Realtime.Redis.{M, ◌>>=◌, Reply, refused, replied}

-- The computation ends, with a result and a world of which `P` holds.
abbrev pub Post : {W A : Type 0} → (A → W → Type 0) → Option (A × W) → Type 0
Post P none = ⊥
Post P (some (a, w)) = P a w

module _ {W A : Type 0} (P : A → W → Type 0) where
  pub Post-map :
      (Q : A → W → Type 0) (o : Option (A × W))
      → Post P o
      → ((a : A) (w : W) → P a w → Q a w)
      → Post Q o
  Post-map Q none h f = h
  Post-map Q (some (a, w)) h f = f a w h

  module _ {B : Type 0} where
    pub Post-bind :
        (Q : B → W → Type 0) (f : A → M W B) (o : Option (A × W))
        → Post P o
        → ((a : A) (w : W) → P a w → Post Q (f a w))
        → Post Q (elim o [ none ↦ none | some (a, w) ↦ f a w ])
    Post-bind Q f none h k = h
    Post-bind Q f (some (a, w)) h k = k a w h

    pub >>=-Post :
        (Q : B → W → Type 0) (m : M W A) (f : A → M W B) (w : W)
        → Post P (m w)
        → ((a : A) (w' : W) → P a w' → Post Q (f a w'))
        → Post Q ((m >>= f) w)
    >>=-Post Q m f w h k = Post-bind Q f (m w) h k

pub Reply-cases :
    {A : Type 0} (r : Reply A) → ((e : Text) × (r ≡ refused e)) ⊎ ((a : A) × (r ≡ replied a))
Reply-cases (refused e) = inl (e, refl)
Reply-cases (replied a) = inr (a, refl)

-- What holds unless there was an error.
abbrev pub Unless : Option Text → Type 0 → Type 0
Unless none A = A
Unless (some e) A = Unit

pub Unless-map : {A B : Type 0} (e : Option Text) → (A → B) → Unless e A → Unless e B
Unless-map none f h = f h
Unless-map (some e) f h = tt
