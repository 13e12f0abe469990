-- ===== src/Chunker/Split/Groups.antt =====
-- internal/chunker/chunker.go: the groups of words that `splitByWords` makes, within the limit.
use syara_ai.Base.{
  ℕ, ◌+◌, ◌≤◌, ◌<◌, ◌≡◌, ◌≢◌, ◌⊎◌, refl, sym, ap, ◌∙◌, List, [], ◌∷◌, ◌++◌, map, length, Text,
  codes, text_equality, arith, append_assoc, append-nil, join,
}
use syara_ai.Chunker.Section.{Chunk}

abbrev pub flatten : List (List Text) → List Text
flatten [] = []
flatten (g ∷ gs) = g ++ flatten gs

pub flatten-append :
    (gs : List (List Text)) (g : List Text) → flatten (gs ++ g ∷ []) ≡ flatten gs ++ g
flatten-append [] g = append-nil g
flatten-append (h ∷ gs) g = ap (◌++◌ h) (flatten-append gs g) ∙ sym (append_assoc h (flatten gs) g)

abbrev pub spaced : List Text → Text
spaced words = join words (codes " ")

abbrev pub contents : List Chunk → List Text
contents = map (λ (c : Chunk). c.content)

pub contents-append :
    (cs : List Chunk) (c : Chunk) → contents (cs ++ c ∷ []) ≡ contents cs ++ c.content ∷ []
contents-append [] c = refl
contents-append (d ∷ cs) c = ap (◌∷◌ d.content) (contents-append cs c)

pub spaced_groups :
    (gs : List (List Text)) (g : List Text)
    → map spaced (gs ++ g ∷ []) ≡ map spaced gs ++ spaced g ∷ []
spaced_groups [] g = refl
spaced_groups (h ∷ gs) g = ap (◌∷◌ (spaced h)) (spaced_groups gs g)

module _ (max : ℕ) (count : Text → ℕ) where
  abbrev pub total : List Text → ℕ
  total [] = 0
  total (w ∷ ws) = count w + total ws

  pub total-append : (ws : List Text) (w : Text) → total (ws ++ w ∷ []) ≡ total ws + count w
  total-append [] w = omega arith
  total-append (v ∷ ws) w = omega (arith, total-append ws w)

  -- The words of a chunk stay in the limit together, unless there is one word only.
  abbrev pub IsInLimit : List Text → Type 0
  IsInLimit g = (total g ≤ max) ⊎ (length g ≤ 1)

  -- The first word of the groups `gs` would exceed the limit in the group `g` before them.
  abbrev pub IsExceeded : List Text → List (List Text) → Type 0
  IsExceeded g [] = Unit
  IsExceeded g ([] ∷ gs) = ⊥
  IsExceeded g ((w ∷ ws) ∷ gs) = max < total g + count w

  -- No group is empty, and none has room for the first word of the next.
  abbrev pub IsGreedy : List (List Text) → Type 0
  IsGreedy [] = Unit
  IsGreedy (g ∷ gs) = (g ≢ []) × IsExceeded g gs × IsGreedy gs

  append_word-IsGreedy :
      (gs : List (List Text)) (v w : Text) (vs : List Text)
      → IsGreedy (gs ++ (v ∷ vs) ∷ [])
      → IsGreedy (gs ++ (v ∷ (vs ++ w ∷ [])) ∷ [])
  append_word-IsGreedy [] v w vs h = ((λ e. absurd (cc e)), tt, tt)
  append_word-IsGreedy (g ∷ []) v w vs (some_word, over, h) =
      (some_word, over, append_word-IsGreedy [] v w vs h)
  append_word-IsGreedy (g ∷ [] ∷ gs) v w vs (some_word, over, h) = absurd over
  append_word-IsGreedy (g ∷ (x ∷ xs) ∷ gs) v w vs (some_word, over, h) =
      (some_word, over, append_word-IsGreedy ((x ∷ xs) ∷ gs) v w vs h)

  pub append_group-IsGreedy :
      (gs : List (List Text)) (v w : Text) (vs : List Text)
      → IsGreedy (gs ++ (v ∷ vs) ∷ [])
      → max < total (v ∷ vs) + count w
      → IsGreedy ((gs ++ (v ∷ vs) ∷ []) ++ (w ∷ []) ∷ [])
  append_group-IsGreedy [] v w vs h lt = (h.0, lt, ((λ e. absurd (cc e)), tt, tt))
  append_group-IsGreedy (g ∷ []) v w vs (some_word, over, h) lt =
      (some_word, over, append_group-IsGreedy [] v w vs h lt)
  append_group-IsGreedy (g ∷ [] ∷ gs) v w vs (some_word, over, h) lt = absurd over
  append_group-IsGreedy (g ∷ (x ∷ xs) ∷ gs) v w vs (some_word, over, h) lt =
      (some_word, over, append_group-IsGreedy ((x ∷ xs) ∷ gs) v w vs h lt)

  -- The words `current` go on the groups of the chunks; only at the start there are none.
  abbrev pub IsNext : List Text → List (List Text) → Type 0
  IsNext [] gs = gs ≡ []
  IsNext (v ∷ vs) gs = IsGreedy (gs ++ (v ∷ vs) ∷ [])

  -- A word for which `current` had no room can begin the next group.
  abbrev pub IsFollowed : List Text → List (List Text) → Type 0
  IsFollowed current gs =
      (w : Text) → max < total current + count w → IsGreedy (gs ++ (w ∷ []) ∷ [])

  pub append-IsGreedy :
      (current : List Text) (w : Text) (gs : List (List Text))
      → IsNext current gs
      → IsGreedy (gs ++ (current ++ w ∷ []) ∷ [])
  append-IsGreedy [] w [] h = ((λ e. absurd (cc e)), tt, tt)
  append-IsGreedy [] w (g ∷ gs) h = absurd (cc h)
  append-IsGreedy (v ∷ vs) w gs h = append_word-IsGreedy gs v w vs h
