-- ===== src/Realtime/Invalidator/Gone.antt =====
-- internal/realtime/cache.go: the keys of an event are gone when its message is acked.
use syara_ai.Base.{
  ℕ, zero, suc, ◌+◌, ◌≤◌, ◌<◌, ◌≡◌, refl, subst, Bool, false, none, some, List, [], ◌∷◌, inl, inr,
  length, length-drop, take, drop, take-append-drop, All, All-map, Text, arith, All-append,
  Bool-cases, leb, ◌∙◌, ap,
}
use syara_ai.Realtime.Redis.{replied, Redis}
use syara_ai.Realtime.Invalidator.Post.{Post, Post-map, >>=-Post, Reply-cases, Unless, Unless-map}
use syara_ai.Realtime.Invalidator.{
  CacheInvalidatorConfig, delete_from, delete_keys, scan_from, resume, M, Deleted,
}

module _ {W : Type 0} (present : W → Text → Bool) where
  -- No key comes back.
  abbrev pub Keeps : W → W → Type 0
  Keeps w w' = (k : Text) → present w k ≡ false → present w' k ≡ false

  abbrev pub Gone : W → List Text → Type 0
  Gone w keys = All (λ k. present w k ≡ false) keys

  pub Gone-Keeps : (w w' : W) (keys : List Text) → Keeps w w' → Gone w keys → Gone w' keys
  Gone-Keeps w w' keys keep h = All-map _ _ keys keep h

  Keeps-trans : (u v w : W) → Keeps u v → Keeps v w → Keeps u w
  Keeps-trans u v w f g k h = g k (f k h)

-- What the code relies on of Redis, where no other client writes: a deletion that is answered removes
-- its keys, no call brings a key back, and the cursor of a scan comes to its end.
pub record IsRedis {W : Type 0} (redis : Redis W) (present : W → Text → Bool) (left : ℕ → ℕ)
    : Type 0 where
  pub del_gone :
      (keys : List Text) (w : W) (n : ℕ)
      → (redis.del keys w).0 ≡ replied n
      → Gone present (redis.del keys w).1 keys
  pub del_keeps : (keys : List Text) (w : W) → Keeps present w (redis.del keys w).1
  pub scan_keeps :
      (cursor count : ℕ) (pattern : Text) (w : W)
      → Keeps present w (redis.scan cursor pattern count w).1
  pub cursor_falls :
      (cursor count : ℕ) (pattern : Text) (w : W) (keys : List Text) (next : ℕ)
      → (redis.scan cursor pattern count w).0 ≡ replied (keys, suc next)
      → left (suc next) < left cursor
  pub publish_keeps :
      (channel : Text) (body : List Text) (w : W) → Keeps present w (redis.publish channel body w).1

module _ {W : Type 0} {redis : Redis W} {present : W → Text → Bool} {left : ℕ → ℕ}
    (laws : IsRedis redis present left) (config : CacheInvalidatorConfig)
    (some_size : 0 < config.batch_size) where
  delete_from-Post :
      (fuel : ℕ) (keys : List Text) (total : ℕ) (w : W)
      → length keys ≤ fuel
      → Post
          (λ d w'. Keeps present w w' × Unless d.1 (Gone present w' keys))
          (delete_from redis config fuel keys total w)
  unfolding delete_from
  delete_from-Post fuel [] total w enough = ((λ k h. h), tt)
  delete_from-Post zero (k ∷ keys) total w enough = absurd (omega arith)
  delete_from-Post (suc fuel) (k ∷ keys) total w enough =
      let batch = take config.batch_size (k ∷ keys) in
      let later = drop config.batch_size (k ∷ keys) in
      let w' = (redis.del batch w).1 in
      elim (Reply-cases (redis.del batch w).0) [
        | inl (e, refusal) ↦ rw (refusal, delete_from) (laws.del_keeps batch w, tt)
        | inr (n, reply) ↦
            rw (reply, delete_from)
              (Post-map (λ d v. Keeps present w' v × Unless d.1 (Gone present v later))
                (λ d v. Keeps present w v × Unless d.1 (Gone present v (k ∷ keys)))
                (delete_from redis config fuel later (total + n) w')
                (delete_from-Post fuel later (total + n) w'
                  (omega (arith, length-drop config.batch_size (k ∷ keys))))
                (λ d v h. (
                  Keeps-trans present w w' v (laws.del_keeps batch w) h.0,
                  Unless-map d.1
                      (λ g. subst (Gone present v) (take-append-drop config.batch_size (k ∷ keys)) (
                        All-append _ batch later
                          (Gone-Keeps present w' v batch h.0 (laws.del_gone batch w n reply)) g))
                      h.1,
                )))
      ]

  pub delete_keys-Post :
      (keys : List Text) (w : W)
      → Post
          (λ d w'. Keeps present w w' × Unless d.1 (Gone present w' keys))
          (delete_keys redis config keys w)
  unfolding delete_keys
  delete_keys-Post keys w = delete_from-Post (length keys) keys 0 w (omega arith)

  resume-Post :
      (again : ℕ → ℕ → ℕ → M W Deleted) (w v : W) (total seen next : ℕ) (d : Deleted)
      → Keeps present w v
      → ((c : ℕ)
          → next ≡ suc c
          → (t s : ℕ) → Post (λ d v'. Keeps present w v') (again (suc c) t s v))
      → Post (λ d v'. Keeps present w v') (resume redis config again total seen next d v)
  unfolding resume
  resume-Post again w v total seen next (n, some e) keep more = keep
  resume-Post again w v total seen zero (n, none) keep more = keep
  resume-Post again w v total seen (suc c) (n, none) keep more =
      elim (Bool-cases (leb config.max_keys_per_pattern seen)) [
        | inl full ↦ rw (full, resume, Post) keep
        | inr room ↦ rw (room, resume, Post) (more c refl (total + n) seen)
      ]

  pub scan_from-Post :
      (fuel : ℕ) (pattern : Text) (cursor total seen : ℕ) (w : W)
      → left cursor < fuel
      → Post (λ d w'. Keeps present w w') (scan_from redis config fuel pattern cursor total seen w)
  unfolding scan_from
  scan_from-Post zero pattern cursor total seen w enough = absurd (omega arith)
  scan_from-Post (suc fuel) pattern cursor total seen w enough =
      let w' = (redis.scan cursor pattern config.scan_count w).1 in
      let scanned = laws.scan_keeps cursor config.scan_count pattern w in
      elim (Reply-cases (redis.scan cursor pattern config.scan_count w).0) [
        | inl (e, refusal) ↦ rw (refusal, scan_from) scanned
        | inr ((keys, next), reply) ↦
            let again = scan_from redis config fuel pattern in
            rw (reply, scan_from)
              (>>=-Post (λ d v. Keeps present w' v × Unless d.1 (Gone present v keys))
                (λ d v. Keeps present w v) (delete_keys redis config keys)
                (resume redis config again total (seen + length keys) next) w'
                (delete_keys-Post keys w')
                (λ d v h.
                  resume-Post again w v total (seen + length keys) next d
                    (Keeps-trans present w w' v scanned h.0)
                    (λ c more t s.
                      Post-map (λ d v'. Keeps present v v') (λ d v'. Keeps present w v')
                        (again (suc c) t s v)
                        (scan_from-Post fuel pattern (suc c) t s v (
                          let falls =
                            laws.cursor_falls cursor config.scan_count pattern w keys c
                              (reply ∙ ap (λ n. replied (keys, n)) more) in
                          omega arith))
                        (λ d v' k.
                          Keeps-trans present w v v' (Keeps-trans present w w' v scanned h.0) k))))
      ]
