-- ===== src/Realtime/Invalidator/Acked.antt =====
-- internal/realtime/cache.go: what holds when `handleDocumentIndexed` acks its message.
use syara_ai.Base.{
  ℕ, ◌<◌, ◌≡◌, Bool, true, false, Option, none, some, List, [], ◌∷◌, ◌++◌, inl, inr, Text, codes,
  if◌then◌else◌,
}
use syara_ai.Realtime.Events.{DocumentIndexedEvent}
use syara_ai.Realtime.Worker.{Disposition, ack, nak, term}
use syara_ai.Realtime.Redis.{Redis, M, pure}
use syara_ai.Realtime.Invalidator.Post.{Post, >>=-Post, Reply-cases, Unless}
use syara_ai.Realtime.Invalidator.Gone.{
  Keeps, Gone, Gone-Keeps, IsRedis, delete_keys-Post, scan_from-Post,
}
use syara_ai.Realtime.Invalidator.{
  CacheInvalidatorConfig, CacheMetrics, Invalidation, Deleted, noted, ended, settled, delete_keys,
  invalidate_by_pattern, invalidate_patterns, invalidate_topics, topic_patterns, invalidate_keys,
  invalidate_document_key, invalidate_source, invalidate_on_update, handle_document_indexed,
  matched, processed, started,
}

-- What holds where there were no errors.
abbrev Clean : List Text → Type 0 → Type 0
Clean [] X = X
Clean (e ∷ es) X = Unit

Clean-map : {X Y : Type 0} (es : List Text) → (X → Y) → Clean es X → Clean es Y
Clean-map [] f h = f h
Clean-map (e ∷ es) f h = tt

Clean-append : (X : Type 0) (es : List Text) (e : Text) → Clean (es ++ e ∷ []) X
Clean-append X [] e = tt
Clean-append X (d ∷ es) e = tt

noted-Clean :
    {X : Type 0} (Y : Type 0) (label : Text) (d : Deleted) (r : Invalidation)
    → Clean r.errors X
    → (X → Unless d.1 Y)
    → Clean (noted label d r).errors Y
noted-Clean Y label (n, none) r h f = Clean-map r.errors f h
noted-Clean Y label (n, some e) r h f = Clean-append Y r.errors (label ++ e)

always : {Y : Type 0} (e : Option Text) → Y → Unless e Y
always none y = y
always (some e) y = tt

-- What an ack promises; a message is not terminated.
abbrev pub Promises : Disposition → Type 0 → Type 0
Promises ack X = X
Promises nak X = Unit
Promises term X = ⊥

ended-fields :
    (X : Type 0) (errors : List Text) (n m : ℕ) (metrics : CacheMetrics)
    → Clean errors X
    → Promises
        (settled (
          ended (record {
            keys_deleted = n;
            patterns_matched = m;
            errors = errors;
            metrics = metrics;
          }))).0
        X
ended-fields X [] n m metrics h = h
ended-fields X (e ∷ es) n m metrics h = tt

ended-Promises :
    (X : Type 0) (r : Invalidation) → Clean r.errors X → Promises (settled (ended r)).0 X
ended-Promises X r h = ended-fields X r.errors r.keys_deleted r.patterns_matched r.metrics h

module _ {W : Type 0} {redis : Redis W} {present : W → Text → Bool} {left : ℕ → ℕ}
    (laws : IsRedis redis present left) (config : CacheInvalidatorConfig)
    (some_size : 0 < config.batch_size) (rounds : ℕ) (enough : left 0 < rounds) where
  -- A step after which the keys `H` are gone, if `G` were before it and there are no errors.
  abbrev Step : List Text → List Text → (Invalidation → M W Invalidation) → Type 0
  Step G H op =
      (r : Invalidation) (w : W)
      → Clean r.errors (Gone present w G)
      → Post (λ r' v. Clean r'.errors (Gone present v H)) (op r w)

  when-Step :
      (G : List Text) (b : Bool) (op : Invalidation → M W Invalidation)
      → Step G G op
      → Step G G (λ r. if b then op r else pure r)
  when-Step G true op h r w c = h r w c
  when-Step G false op h r w c = c

  invalidate_by_pattern-Post :
      (pattern : Text) (w : W)
      → Post (λ d v. Keeps present w v) (invalidate_by_pattern redis config rounds pattern w)
  unfolding invalidate_by_pattern
  invalidate_by_pattern-Post pattern w =
      scan_from-Post laws config some_size rounds pattern 0 0 0 w enough

  invalidate_patterns-Step :
      (G patterns : List Text) → Step G G (invalidate_patterns redis config rounds patterns)
  unfolding invalidate_patterns
  invalidate_patterns-Step G [] r w h = h
  invalidate_patterns-Step G (pattern ∷ patterns) r w h =
      >>=-Post (λ d v. Keeps present w v) _ (invalidate_by_pattern redis config rounds pattern) _ w
        (invalidate_by_pattern-Post pattern w)
        (λ d v keep.
          invalidate_patterns-Step G patterns
            (processed (matched (noted (codes "pattern " ++ pattern ++ codes ": ") d r))) v
            (noted-Clean (Gone present v G) (codes "pattern " ++ pattern ++ codes ": ") d r h
              (λ g. always d.1 (Gone-Keeps present w v G keep g))))

  invalidate_topics-Step :
      (G topics : List Text) → Step G G (invalidate_topics redis config rounds topics)
  unfolding invalidate_topics
  invalidate_topics-Step G [] r w h = h
  invalidate_topics-Step G (topic ∷ topics) r w h =
      >>=-Post (λ r' v. Clean r'.errors (Gone present v G)) _
        (invalidate_patterns redis config rounds (topic_patterns topic) r) _ w
        (invalidate_patterns-Step G (topic_patterns topic) r w h)
        (λ r' v h'. invalidate_topics-Step G topics r' v h')

  invalidate_source-Step :
      (G : List Text) (source_type : Text)
      → Step G G (invalidate_source redis config rounds source_type)
  unfolding invalidate_source
  invalidate_source-Step G [] r w h = h
  invalidate_source-Step G (c ∷ s) r w h =
      let pattern = codes "source_cache:" ++ (c ∷ s) ++ codes "*" in
      >>=-Post (λ d v. Keeps present w v) _ (invalidate_by_pattern redis config rounds pattern) _ w
        (invalidate_by_pattern-Post pattern w)
        (λ d v keep.
          noted-Clean (Gone present v G) (codes "source pattern: ") d r h
            (λ g. always d.1 (Gone-Keeps present w v G keep g)))

  invalidate_keys-Step :
      (keys : List Text) → Step [] keys (invalidate_keys redis config rounds keys)
  unfolding invalidate_keys
  invalidate_keys-Step [] r w h = h
  invalidate_keys-Step (k ∷ keys) r w h =
      >>=-Post (λ d v. Keeps present w v × Unless d.1 (Gone present v (k ∷ keys))) _
        (delete_keys redis config (k ∷ keys)) _ w
        (delete_keys-Post laws config some_size (k ∷ keys) w)
        (λ d v h'.
          noted-Clean (Gone present v (k ∷ keys)) (codes "delete keys: ") d r h (λ g. h'.1))

  invalidate_document_key-Step :
      (G : List Text) (id : Text)
      → Step G ((codes "doc:" ++ id) ∷ G) (invalidate_document_key redis config rounds id)
  unfolding invalidate_document_key
  invalidate_document_key-Step G id r w h =
      let doc = (codes "doc:" ++ id) ∷ [] in
      elim (Reply-cases (redis.del doc w).0) [
        | inl (e, refusal) ↦ rw refusal (Clean-append _ r.errors (codes "delete doc key: " ++ e))
        | inr (n, reply) ↦ rw reply (
            Clean-map r.errors
              (λ g. (
                (laws.del_gone doc w n reply).0,
                Gone-Keeps present w (redis.del doc w).1 G (laws.del_keeps doc w) g,
              ))
              h)
      ]

  invalidate_on_update-Post :
      (metrics : CacheMetrics) (event : DocumentIndexedEvent) (w : W)
      → Post
          (λ result v.
            Promises
              (settled result).0
              (Gone present v ((codes "doc:" ++ event.document_id) ∷ event.cache_keys)))
          (invalidate_on_update redis config rounds metrics event w)
  unfolding invalidate_on_update
  invalidate_on_update-Post metrics event w =
      let all = (codes "doc:" ++ event.document_id) ∷ event.cache_keys in
      let topics = invalidate_topics redis config rounds event.affected_topics in
      >>=-Post (λ a v. Clean a.errors (Gone present v event.cache_keys)) _
        (invalidate_keys redis config rounds event.cache_keys (started metrics)) _ w
        (invalidate_keys-Step event.cache_keys (started metrics) w tt)
        (λ a wa ha.
          >>=-Post (λ b v. Clean b.errors (Gone present v all)) _
            (invalidate_document_key redis config rounds event.document_id a) _ wa
            (invalidate_document_key-Step event.cache_keys event.document_id a wa ha)
            (λ b wb hb.
              >>=-Post (λ c v. Clean c.errors (Gone present v all)) _
                (if config.enable_pattern_scan then topics b else pure b) _ wb
                (when-Step all config.enable_pattern_scan topics
                  (invalidate_topics-Step all event.affected_topics) b wb hb)
                (λ c wc hc.
                  >>=-Post (λ d v. Clean d.errors (Gone present v all)) _
                    (invalidate_source redis config rounds event.source_type c) _ wc
                    (invalidate_source-Step all event.source_type c wc hc)
                    (λ d wd hd.
                      let notice =
                        event.document_id ∷ event.source_type ∷ event.affected_topics
                        ++ event.cache_keys in
                      let v = (redis.publish config.publish_channel notice wd).1 in
                      ended-Promises (Gone present v all) d (
                        Clean-map d.errors
                          (Gone-Keeps present wd v all
                            (laws.publish_keeps config.publish_channel notice wd))
                          hd)))))

  -- Where Redis deletes what it says, no other client writes and the cursor of a scan ends within
  -- the rounds, the handling of an event that decodes ends, and its message is acked only when the
  -- event's cache keys and the key of its document are gone.
  pub handle_document_indexed-Promises :
      (unmarshal : Text → Option DocumentIndexedEvent) (body : Text) (event : DocumentIndexedEvent)
      (metrics : CacheMetrics) (w : W)
      → unmarshal body ≡ some event
      → Post
          (λ result v.
            Promises result.0
              (Gone present v ((codes "doc:" ++ event.document_id) ∷ event.cache_keys)))
          (handle_document_indexed redis config rounds unmarshal body metrics w)
  unfolding handle_document_indexed
  handle_document_indexed-Promises unmarshal body event metrics w good =
      rw (good, handle_document_indexed)
        (>>=-Post
          (λ result v.
            Promises (settled result).0
              (Gone present v ((codes "doc:" ++ event.document_id) ∷ event.cache_keys)))
          _ (invalidate_on_update redis config rounds metrics event) _ w
          (invalidate_on_update-Post metrics event w) (λ result v h. h))
