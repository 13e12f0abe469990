-- ===== src/Embedder/Cache/Window.antt =====
-- internal/embedder/embedder.go: which texts the cache holds after any calls of `set`.
use syara_ai.Base.{
  ℕ, suc, ◌≤◌, ◌≡◌, refl, ap, subst, sym, ◌∙◌, inl, inr, true, false, Bool-cases, none, some,
  Option-cases, List, [], ◌∷◌, ◌++◌, ltb, leb, length, length-map, last, last_of_le, any, drop,
  Text, text_eq, text_eq_iff, Dict, keys, lookup, insert, remove, text_equality, arith, IsDistinct,
  append-nil, if◌then◌else◌, remove-IsDistinct, insert-IsDistinct, lookup-remove, append_assoc,
  last-append_slide, length-last,
}
use syara_ai.Embedder.Cache.{CacheEntry, EmbeddingCache, new_cache, evict, set}

module _ {V : Type 0} where
  keys-insert :
      (k : Text) (v : V) (m : Dict Text V)
      → lookup k m ≡ none
      → keys (insert k v m) ≡ keys m ++ k ∷ []
  unfolding lookup insert
  keys-insert k v [] h = refl
  keys-insert k v ((j, w) ∷ m) h = elim (Bool-cases (text_eq j k)) [
    | inl same ↦ ground arith
    | inr other ↦ rw other (ap (◌∷◌ j) (keys-insert k v m (ground arith)))
  ]

  -- A key is found exactly if it stands among the keys.
  pub lookup-keys :
      (k : Text) (m : Dict Text V)
      → any (text_eq k) (keys m) ≡ elim (lookup k m) [ none ↦ false | some v ↦ true ]
  unfolding lookup
  lookup-keys k [] = refl
  lookup-keys k ((j, w) ∷ m) = ground (arith, lookup-keys k m, text_eq_iff k j, text_eq_iff j k)

  remove_absent : (k : Text) (m : Dict Text V) → lookup k m ≡ none → remove k m ≡ m
  unfolding lookup remove
  remove_absent k [] h = refl
  remove_absent k ((j, w) ∷ m) h = elim (Bool-cases (text_eq j k)) [
    | inl same ↦ ground arith
    | inr other ↦ rw other (ap (◌∷◌ (j, w)) (remove_absent k m (ground arith)))
  ]

  -- Removing the first key of a map.
  remove_first :
      (k : Text) (ks : List Text) (m : Dict Text V)
      → IsDistinct m
      → keys m ≡ k ∷ ks
      → keys (remove k m) ≡ ks
  unfolding remove
  remove_first k ks [] d h = absurd (cc)
  remove_first k ks ((j, w) ∷ m) (new, d) h =
      let e : j ≡ k = cc in
      rw ((text_eq_iff j k).1 e, remove) (ap keys (remove_absent k m (rw (← e) new)) ∙ (cc))

-- The cache after the additions under the keys `h`, of which it keeps the last `suc n`.
record IsWindow {V : Type 0} (n : ℕ) (h : List Text) (c : EmbeddingCache V) : Type 0 where
  limit : c.max_size ≡ suc n
  kept : c.order ≡ last (suc n) h
  held : keys c.entries ≡ c.order
  distinct : IsDistinct c.entries

module _ {V : Type 0} where
  -- An evicted cache: the window has room for one more, and no key is new in it.
  record IsEvicted (m : ℕ) (order : List Text) (key : Text) (c : EmbeddingCache V) : Type 0 where
    kept : c.order ≡ (if leb (suc m) (length order) then drop 1 order else order)
    held : keys c.entries ≡ c.order
    distinct : IsDistinct c.entries
    limit : c.max_size ≡ suc m
    absent : lookup key c.entries ≡ none

  evict-IsEvicted :
      (m : ℕ) (key : Text) (entries : Dict Text (CacheEntry V)) (order : List Text)
      → keys entries ≡ order
      → IsDistinct entries
      → lookup key entries ≡ none
      → IsEvicted m order key
          (evict (record { entries = entries; order = order; max_size = suc m }))
  evict-IsEvicted m key [] [] h d a =
      let room : leb (suc m) 0 ≡ false = ground arith in
      rw room (record { kept = rw room refl; held = refl; distinct = tt; limit = refl; absent = a })
  evict-IsEvicted m key (e ∷ entries) [] h d a = absurd (cc)
  evict-IsEvicted m key entries (k ∷ order) h d a =
      let same : length entries ≡ suc (length order) =
        sym (length-map (λ p. p.0) entries) ∙ ap length h in
      let limited : ltb 0 (suc m) ≡ true = ground arith in
      elim (Bool-cases (leb (suc m) (suc (length order)))) [
        | inl full ↦
            rw (same, full, limited)
              (record {
                kept = rw full refl;
                held = remove_first k order entries d h;
                distinct = remove-IsDistinct k entries d;
                limit = refl;
                absent = ground (arith, lookup-remove k key entries);
              })
        | inr room ↦
            rw (same, room)
              (record { kept = rw room refl; held = h; distinct = d; limit = refl; absent = a })
      ]

  -- The keys that a call of `set` adds.
  added_by : (Text → Text) → EmbeddingCache V → Text → List Text
  added_by hash_text c text = elim (lookup (hash_text text) c.entries) [
    | some entry ↦ []
    | none ↦ hash_text text ∷ []
  ]

  set-IsWindow :
      (hash_text : Text → Text) (c : EmbeddingCache V) (n : ℕ) (h : List Text) (text : Text)
      (embedding : V) (now : ℕ)
      → IsWindow n h c
      → IsWindow n (h ++ added_by hash_text c text) (set hash_text c text embedding now)
  unfolding set added_by
  set-IsWindow hash_text c n h text embedding now w =
      let key = hash_text text in
      elim (Option-cases (lookup key c.entries))
        as (λ _. IsWindow n (h ++ added_by hash_text c text) (set hash_text c text embedding now)) [
          | inl absent ↦
              let e : IsEvicted n c.order key (evict c) =
                subst
                  (λ k.
                    IsEvicted n c.order key
                      (evict (record { entries = c.entries; order = c.order; max_size = k })))
                  (sym w.limit)
                  (evict-IsEvicted n key c.entries c.order w.held w.distinct absent) in
              rw (absent, set, added_by)
                (record {
                  limit = e.limit;
                  kept =
                      ap (λ l. l ++ key ∷ []) e.kept
                      ∙ subst
                          (λ o.
                            (if leb (suc n) (length o) then drop 1 o else o) ++ key ∷ []
                            ≡ last (suc n) (h ++ key ∷ []))
                          (sym w.kept) (last-append_slide n h key);
                  held = keys-insert key _ _ e.absent ∙ ap (λ l. l ++ key ∷ []) e.held;
                  distinct = insert-IsDistinct key _ _ e.distinct;
                })
          | inr (entry, found) ↦ rw (found, set, added_by) (rw (append-nil h) w)
        ]

-- Calls of `set`: the text, its embedding and the time.
abbrev pub Sets : Type 0 → Type 0
Sets V = List (Text × V × ℕ)

module _ {V : Type 0} (hash_text : Text → Text) where
  unfoldable pub set_all : EmbeddingCache V → Sets V → EmbeddingCache V
  set_all c [] = c
  set_all c ((text, embedding, now) ∷ sets) = set_all (set hash_text c text embedding now) sets

  -- All keys that the calls add, in their order.
  pub added : EmbeddingCache V → Sets V → List Text
  added c [] = []
  added c ((text, embedding, now) ∷ sets) =
      added_by hash_text c text ++ added (set hash_text c text embedding now) sets

  set_all-IsWindow :
      (c : EmbeddingCache V) (n : ℕ) (h : List Text) (sets : Sets V)
      → IsWindow n h c
      → IsWindow n (h ++ added c sets) (set_all c sets)
  unfolding set_all added
  set_all-IsWindow c n h [] w = rw (append-nil h) w
  set_all-IsWindow c n h ((text, embedding, now) ∷ sets) w =
      rw
        (← append_assoc h (added_by hash_text c text)
          (added (set hash_text c text embedding now) sets))
        (set_all-IsWindow (set hash_text c text embedding now) n (h ++ added_by hash_text c text)
          sets (set-IsWindow hash_text c n h text embedding now w))

  -- After any calls of `set` on a new cache of a size above 0, the cache holds an entry for exactly
  -- the keys that were added last, as many as its size allows: the oldest addition goes first,
  -- whenever an entry was used. A key stands in the order once.
  pub set_all-last :
      (n : ℕ) (sets : Sets V) (key : Text)
      → let c = set_all (new_cache (suc n)) sets in
        (c.order ≡ last (suc n) (added (new_cache (suc n)) sets))
        × (any (text_eq key) c.order ≡ elim (lookup key c.entries) [ none ↦ false | some e ↦ true ])
        × (length c.entries ≡ length c.order)
        × (length c.entries ≤ suc n)
        × IsDistinct c.entries
  set_all-last n sets key =
      let start : IsWindow n [] (new_cache (suc n)) = record {
        limit = refl;
        kept = sym (last_of_le (suc n) [] (omega arith));
        held = refl;
        distinct = tt;
      } in
      let w = set_all-IsWindow (new_cache (suc n)) n [] sets start in
      let same : length (set_all (new_cache (suc n)) sets).entries
          ≡ length (set_all (new_cache (suc n)) sets).order =
        sym (length-map (λ p. p.0) _) ∙ ap length w.held in
      (
        w.kept,
        ap (any (text_eq key)) (sym w.held) ∙ lookup-keys key _,
        same,
        omega (arith, same, ap length w.kept, length-last (suc n) (added (new_cache (suc n)) sets)),
        w.distinct,
      )
