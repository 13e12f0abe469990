-- ===== src/Visual/Citation/Pages.antt =====
-- internal/visual/citation_builder.go: the grouping by pages keeps every chunk once.
use syara_ai.Base.{
  ◌≡◌, inl, inr, refl, sym, ◌∙◌, true, false, List, [], ◌∷◌, ◌++◌, Bool-cases, text_equality,
  lookup, insert, append_assoc,
}
use syara_ai.Base.{values, flatten, Perm-of_eq, Perm}
use mathlib.Core.List.Perm
use mathlib.Core.List.{perm_middle}
use syara_ai.Visual.Model.{CitedChunk}
use syara_ai.Visual.Citation.Groups.{PageKey, Groups, page_of, page_equality, chunks_at, group_from}

chunks_at-here :
    {F : Type 0} (key k : PageKey) (chunks : List (CitedChunk F)) (groups : Groups F)
    → page_equality.beq k key ≡ true
    → chunks_at key ((k, chunks) ∷ groups) ≡ chunks
unfolding lookup
chunks_at-here key k chunks groups same = rw (same, chunks_at) refl

chunks_at-later :
    {F : Type 0} (key k : PageKey) (chunks : List (CitedChunk F)) (groups : Groups F)
    → page_equality.beq k key ≡ false
    → chunks_at key ((k, chunks) ∷ groups) ≡ chunks_at key groups
unfolding lookup
chunks_at-later key k chunks groups other = rw (other, chunks_at) refl

-- Every chunk stands in one group.
insert-chunk :
    {F : Type 0} (c : CitedChunk F) (key : PageKey) (groups : Groups F) (old : List (CitedChunk F))
    → chunks_at key groups ≡ old
    → Perm (flatten (values (insert key (old ++ c ∷ []) groups))) (c ∷ flatten (values groups))
unfolding insert
insert-chunk c key [] old e = rw (← e) (unfold lookup in Perm.refl (c ∷ []))
insert-chunk c key ((k, chunks) ∷ groups) old e = elim (Bool-cases (page_equality.beq k key)) [
  | inl same ↦
      rw (same, ← e, chunks_at-here key k chunks groups same)
        (Perm.trans (Perm-of_eq (append_assoc chunks (c ∷ []) (flatten (values groups))))
          (perm_middle chunks (flatten (values groups))))
  | inr other ↦
      let e' : chunks_at key groups ≡ old = sym (chunks_at-later key k chunks groups other) ∙ e in
      rw other (
        Perm.trans (Perm.append_left chunks (insert-chunk c key groups old e'))
          (perm_middle chunks (flatten (values groups))))
]

pub group_from-Perm :
    {F : Type 0} (chunks : List (CitedChunk F)) (groups : Groups F)
    → Perm (flatten (values (group_from chunks groups))) (chunks ++ flatten (values groups))
unfolding group_from
group_from-Perm [] groups = Perm.refl (flatten (values groups))
group_from-Perm (c ∷ chunks) groups =
    Perm.trans
      (group_from-Perm chunks (insert (page_of c) (chunks_at (page_of c) groups ++ c ∷ []) groups))
      (Perm.trans
        (Perm.append_left chunks
          (insert-chunk c (page_of c) groups (chunks_at (page_of c) groups) refl))
        (perm_middle chunks (flatten (values groups))))
