-- ===== src/Realtime/Redis.antt =====
-- The calls of Redis that internal/realtime makes: a reply or an error. A computation acts on the
-- world; `none` stands for a loop that does not end.
use syara_ai.Base.{ℕ, Option, none, some, List, Text}

pub data Reply (A : Type 0) : Type 0 where
  refused : Text → Reply A
  replied : A → Reply A

-- `get` gives `none` for a missing key, `del` the number of keys deleted, `scan` the keys that match
-- a pattern from a cursor on and the next cursor.
pub record Redis (W : Type 0) : Type 0 where
  pub get : Text → W → Reply (Option Text) × W
  pub set : Text → Text → W → Reply Unit × W
  pub del : List Text → W → Reply ℕ × W
  pub scan : ℕ → Text → ℕ → W → Reply (List Text × ℕ) × W
  pub publish : Text → List Text → W → Reply Unit × W

abbrev pub M : Type 0 → Type 0 → Type 0
M W A = W → Option (A × W)

infixl 5 ◌>>=◌
abbrev pub ◌>>=◌ : {W A B : Type 0} → M W A → (A → M W B) → M W B
◌>>=◌ m f w = elim (m w) [ none ↦ none | some (a, w') ↦ f a w' ]

abbrev pub pure : {W A : Type 0} → A → M W A
pure a w = some (a, w)

abbrev pub call : {W A : Type 0} → (W → A × W) → M W A
call f w = some (f w)
