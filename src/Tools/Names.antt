-- ===== src/Tools/Names.antt =====
-- internal/tools/registry.go: what registering and unregistering do to the tools by name.
use syara_ai.Base.{
  ◌≡◌, refl, ap₂, inl, inr, none, some, List, [], ◌∷◌, map, All, if◌then◌else◌, Option-cases, Text,
  text_eq, text_eq_iff, Dict, keys, lookup, lookup-insert, lookup-remove, text_equality, IsDistinct,
  insert-IsDistinct, remove-IsDistinct, insert-All, remove-All, arith,
}
use syara_ai.Tools.Registry.{
  Registry, Tool, ToolDefinition, definition, already_registered, not_found, new_registry, register,
  unregister, get, list, get_tool_definitions,
}

-- A caller's change to the registry.
pub data Change (W : Type 0) : Type 0 where
  add : Tool W → Change W
  drop_name : Text → Change W

module _ {W : Type 0} where
  abbrev BearsItsName : Text × Tool W → Type 0
  BearsItsName p = p.1.name ≡ p.0

  -- Each name stands once, and its tool bears it.
  pub record IsWellFormed (r : Registry W) : Type 0 where
    pub distinct : IsDistinct r.tools
    pub named : All BearsItsName r.tools

  register-IsWellFormed :
      (r : Registry W) (t : Tool W) → IsWellFormed r → IsWellFormed (register r t).1
  unfolding register
  register-IsWellFormed r t h = elim (Option-cases (lookup t.name r.tools)) [
    | inl free ↦
        rw (free, register)
          (record {
            distinct = insert-IsDistinct t.name t r.tools h.distinct;
            named = insert-All BearsItsName t.name t r.tools refl h.named;
          })
    | inr (u, taken) ↦ rw (taken, register) h
  ]

  unregister-IsWellFormed :
      (r : Registry W) (k : Text) → IsWellFormed r → IsWellFormed (unregister r k).1
  unfolding unregister
  unregister-IsWellFormed r k h = elim (Option-cases (lookup k r.tools)) [
    | inl absent ↦ rw (absent, unregister) h
    | inr (u, found) ↦
        rw (found, unregister)
          (record {
            distinct = remove-IsDistinct k r.tools h.distinct;
            named = remove-All BearsItsName k r.tools h.named;
          })
  ]

  get-register :
      (r : Registry W) (t : Tool W) (k : Text)
      → ((register r t).0
          ≡ elim (get r t.name) [ none ↦ none | some _ ↦ some (already_registered t.name) ])
        × (get (register r t).1 k ≡ elim (get r t.name) [
          | none ↦ if text_eq t.name k then some t else get r k
          | some _ ↦ get r k
        ])
  unfolding register get
  get-register r t k = ground (arith, lookup-insert t.name k t r.tools)

  get-unregister :
      (r : Registry W) (name k : Text)
      → ((unregister r name).0 ≡ elim (get r name) [ none ↦ some (not_found name) | some _ ↦ none ])
        × (get (unregister r name).1 k ≡ (if text_eq name k then none else get r k))
  unfolding unregister get
  get-unregister r name k = ground (arith, lookup-remove name k r.tools, text_eq_iff name k)

  -- Registering: a name in use is refused and no name changes; a free one gets the tool, and no
  -- other name changes. Unregistering: an unknown name is an error; in any case the name has no tool
  -- afterwards, and every other name keeps its tool.
  pub get-register-unregister :
      (r : Registry W) (t : Tool W) (name k : Text)
      → ((register r t).0
          ≡ elim (get r t.name) [ none ↦ none | some _ ↦ some (already_registered t.name) ])
        × (get (register r t).1 k ≡ elim (get r t.name) [
          | none ↦ if text_eq t.name k then some t else get r k
          | some _ ↦ get r k
        ])
        × ((unregister r name).0
            ≡ elim (get r name) [ none ↦ some (not_found name) | some _ ↦ none ])
        × (get (unregister r name).1 k ≡ (if text_eq name k then none else get r k))
  get-register-unregister r t name k =
      let added = get-register r t k in
      let dropped = get-unregister r name k in (added.0, added.1, dropped.0, dropped.1)

  unfoldable pub apply : List (Change W) → Registry W → Registry W
  apply [] r = r
  apply (add t ∷ cs) r = apply cs (register r t).1
  apply (drop_name k ∷ cs) r = apply cs (unregister r k).1

  apply-IsWellFormed :
      (cs : List (Change W)) (r : Registry W) → IsWellFormed r → IsWellFormed (apply cs r)
  unfolding apply
  apply-IsWellFormed [] r h = h
  apply-IsWellFormed (add t ∷ cs) r h = apply-IsWellFormed cs _ (register-IsWellFormed r t h)
  apply-IsWellFormed (drop_name k ∷ cs) r h =
      apply-IsWellFormed cs _ (unregister-IsWellFormed r k h)

  names_of_definitions :
      (m : Dict Text (Tool W))
      → All BearsItsName m
      → map (λ (d : ToolDefinition). d.name) (map (λ p. definition p.1) m) ≡ keys m
  names_of_definitions [] h = refl
  names_of_definitions ((k, t) ∷ m) (p, h) = ap₂ ◌∷◌ p (names_of_definitions m h)

  -- After any changes to a new registry each name stands once, and the definitions that the model
  -- is given bear exactly the registered names.
  pub apply-new_registry :
      (cs : List (Change W))
      → let r = apply cs new_registry in
        IsDistinct r.tools
        × (map (λ (d : ToolDefinition). d.name) (get_tool_definitions r) ≡ list r)
  unfolding new_registry get_tool_definitions list
  apply-new_registry cs =
      let h = apply-IsWellFormed cs new_registry (record { distinct = tt; named = tt }) in
      (h.distinct, names_of_definitions _ h.named)
