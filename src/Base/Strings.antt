-- ===== src/Base/Strings.antt =====
-- The functions of Go's package `strings` that the program calls, on byte sequences. White space is
-- the ASCII white space.
use Prim.Native.Nat.{ℕ, zero, suc, ◌+◌, ◌-◌, ◌/◌, ◌%◌}
use mathlib.Core.Path.{◌≡◌, refl, ap, ◌∙◌, sym}
use mathlib.Core.Logic.{inl, inr}
use mathlib.Core.Bool.{Bool, true, false, ◌&&◌, ◌||◌}
use mathlib.Core.Option.{Option, none, some}
use mathlib.Core.List.{List, [], ◌∷◌, ◌++◌, reverse, append_assoc}
use syara_ai.Base.Tests.{◌==◌, leb, ltb, if◌then◌else◌, Bool-cases}
use syara_ai.Base.Lists.{All}
use syara_ai.Base.Equality.{Text, text_eq}

-- '\t', '\n', '\v', '\f', '\r' and ' '.
abbrev pub is_space : ℕ → Bool
is_space c = c == 32 || (leb 9 c && leb c 13)

-- `strings.HasPrefix(s, p)`.
unfoldable pub has_prefix : Text → Text → Bool
has_prefix s [] = true
has_prefix [] (c ∷ p) = false
has_prefix (d ∷ s) (c ∷ p) = d == c && has_prefix s p

-- `strings.Index(s, sub)`, where -1 is `none`.
unfoldable pub index : Text → Text → Option ℕ
unfolding has_prefix
index [] sub = if has_prefix [] sub then some 0 else none
index (c ∷ s) sub =
    let later : Option ℕ = elim (index s sub) [ none ↦ none | some i ↦ some (suc i) ] in
    if has_prefix (c ∷ s) sub then some 0 else later

-- `strings.Contains(s, sub)`.
unfoldable pub contains : Text → Text → Bool
unfolding index
contains s sub = elim (index s sub) [ none ↦ false | some i ↦ true ]

-- `strings.LastIndex(s, sub)`, where -1 is `none`.
unfoldable pub last_index : Text → Text → Option ℕ
unfolding has_prefix
last_index [] sub = if has_prefix [] sub then some 0 else none
last_index (c ∷ s) sub =
    let here : Option ℕ = if has_prefix (c ∷ s) sub then some 0 else none in
    elim (last_index s sub) [ some i ↦ some (suc i) | none ↦ here ]

unfoldable pub trim_left : Text → Text
trim_left [] = []
trim_left (c ∷ s) = let rest = trim_left s in if is_space c then rest else c ∷ s

-- `strings.TrimSpace(s)`.
unfoldable pub trim_space : Text → Text
unfolding trim_left
trim_space s = reverse (trim_left (reverse (trim_left s)))

-- `strings.Fields(s)`, with the field read so far.
fields_from : Text → Text → List Text
fields_from [] [] = []
fields_from (d ∷ cur) [] = (d ∷ cur) ∷ []
fields_from cur (c ∷ s) =
    let closed = fields_from [] s in
    let longer = fields_from (cur ++ c ∷ []) s in
    if is_space c then elim cur [ [] ↦ closed | d ∷ rest ↦ (d ∷ rest) ∷ closed ] else longer

unfoldable pub fields : Text → List Text
unfolding fields_from
fields s = fields_from [] s

-- `strings.ToLower(s)` on ASCII letters.
unfoldable pub to_lower : Text → Text
to_lower [] = []
to_lower (c ∷ s) = (if leb b'A' c && leb c b'Z' then c + 32 else c) ∷ to_lower s

-- `strings.Join(parts, sep)`.
unfoldable pub join : List Text → Text → Text
join [] sep = []
join (p ∷ []) sep = p
join (p ∷ q ∷ ps) sep = p ++ (sep ++ join (q ∷ ps) sep)

-- `strings.ToUpper(s)` on ASCII letters.
unfoldable pub to_upper : Text → Text
to_upper [] = []
to_upper (c ∷ s) = (if leb b'a' c && leb c b'z' then c - 32 else c) ∷ to_upper s

-- The digits of `n` before `acc`, by fuel that bounds their number.
digits_from : ℕ → ℕ → Text → Text
digits_from zero n acc = acc
digits_from (suc fuel) n acc =
    let longer = (b'0' + n % 10) ∷ acc in
    elim (ltb n 10) [ true ↦ longer | false ↦ digits_from fuel (n / 10) longer ]

-- `fmt.Sprintf("%d", n)`; a number has no more digits than its value and one.
unfoldable pub decimal : ℕ → Text
unfolding digits_from
decimal n = digits_from (suc n) n []

-- The texts written one after another, as to a `strings.Builder`.
abbrev pub concat : List Text → Text
concat [] = []
concat (p ∷ ps) = p ++ concat ps

-- A text that is not empty.
abbrev pub IsNonempty : Text → Type 0
IsNonempty s = text_eq s [] ≡ false

fields_from-IsNonempty : (cur s : Text) → All IsNonempty (fields_from cur s)
unfolding fields_from
fields_from-IsNonempty [] [] = tt
fields_from-IsNonempty (d ∷ cur) [] = (refl, tt)
fields_from-IsNonempty [] (c ∷ s) = elim (Bool-cases (is_space c)) [
  | inl space ↦ rw space (fields_from-IsNonempty [] s)
  | inr other ↦ rw other (fields_from-IsNonempty (c ∷ []) s)
]
fields_from-IsNonempty (d ∷ cur) (c ∷ s) = elim (Bool-cases (is_space c)) [
  | inl space ↦ rw space (refl, fields_from-IsNonempty [] s)
  | inr other ↦ rw other (fields_from-IsNonempty (d ∷ (cur ++ c ∷ [])) s)
]

pub fields-IsNonempty : (s : Text) → All IsNonempty (fields s)
unfolding fields
fields-IsNonempty s = fields_from-IsNonempty [] s

pub join-append :
    (p : Text) (ps : List Text) (q sep : Text)
    → join ((p ∷ ps) ++ q ∷ []) sep ≡ join (p ∷ ps) sep ++ (sep ++ q)
unfolding join
join-append p [] q sep = refl
join-append p (r ∷ ps) q sep =
    let rest = join (r ∷ ps) sep in
    ap (λ t. p ++ (sep ++ t)) (join-append r ps q sep)
    ∙ ap (◌++◌ p) (sym (append_assoc sep rest (sep ++ q)))
    ∙ sym (append_assoc p (sep ++ rest) (sep ++ q))

pub join-IsNonempty :
    (p : Text) (ps : List Text) (sep : Text) → IsNonempty p → IsNonempty (join (p ∷ ps) sep)
unfolding join
join-IsNonempty [] ps sep h = cc
join-IsNonempty (c ∷ p) [] sep h = h
join-IsNonempty (c ∷ p) (q ∷ ps) sep h = refl
