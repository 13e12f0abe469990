-- ===== src/Realtime/Worker/Settled.antt =====
-- internal/realtime/worker.go: what the handlers say about a message, and that it comes to an end.
use syara_ai.Base.{
  ℕ, ◌+◌, ◌-◌, ◌≡◌, refl, List, [], ◌∷◌, ◌++◌, inl, inr, Text, arith, Option-cases, Bool-cases,
  Option, false, ◌⊎◌,
}
use syara_ai.Realtime.Events.{
  Bus, DocumentChangedEvent, DocumentProcessedEvent, DocumentIndexedEvent, publish,
  document_indexed, new_document_indexed_event,
}
use syara_ai.Realtime.Worker.{
  WorkerPoolConfig, WorkerPool, WorkerMetrics, Disposition, ack, nak, term, Msg, Processed, failed,
  found, handler, is_last, change_body, processed_body, indexed_body, handle_document_changed,
  handle_document_processed, handle_document_indexed, begin, finish, ProcessedDocument,
}

-- The counters move with what was said: one job is processed, failed or retried.
abbrev pub Counted : Disposition → WorkerMetrics → WorkerMetrics → Type 0
Counted ack m n =
    (n.jobs_processed ≡ m.jobs_processed + 1)
    × (n.jobs_failed ≡ m.jobs_failed)
    × (n.jobs_retried ≡ m.jobs_retried)
Counted term m n =
    (n.jobs_processed ≡ m.jobs_processed)
    × (n.jobs_failed ≡ m.jobs_failed + 1)
    × (n.jobs_retried ≡ m.jobs_retried)
Counted nak m n =
    (n.jobs_processed ≡ m.jobs_processed)
    × (n.jobs_failed + n.jobs_retried ≡ m.jobs_failed + m.jobs_retried + 1)

-- One thing is said about the message, and counted; no worker stays active.
abbrev pub Settles : WorkerPool → WorkerPool → Type 0
Settles p q =
    (d : Disposition) × (q.said ≡ p.said ++ d ∷ [])
    × Counted d p.metrics q.metrics
    × (q.metrics.current_active ≡ p.metrics.current_active)

Counted-finish :
    (d : Disposition) (latency : ℕ) (p q : WorkerPool)
    → Counted d (begin p).metrics q.metrics
    → Counted d p.metrics (finish latency q).metrics
Counted-finish ack latency p q h = h
Counted-finish nak latency p q h = h
Counted-finish term latency p q h = h

pub Processed-cases :
    (r : Processed)
    → ((e : Text) × (r ≡ failed e)) ⊎ ((docs : List ProcessedDocument) × (r ≡ found docs))
Processed-cases (failed e) = inl (e, refl)
Processed-cases (found docs) = inr (docs, refl)

module _ {W : Type 0} (bus : Bus W) where
  handler-Settles :
      (body : WorkerPool → W → WorkerPool × W)
      → ((p : WorkerPool) (w : W) → Settles p (body p w).0)
      → (p : WorkerPool) (w : W)
      → Settles p (handler bus body p w).0 × ((handler bus body p w).0.processing ≡ false)
  handler-Settles body h p w =
      let inner = h (begin p) (bus.now w).1 in
      (
        (
          inner.0,
          inner.1,
          Counted-finish inner.0 ((bus.now (body (begin p) (bus.now w).1).1).0 - (bus.now w).0) p
              (body (begin p) (bus.now w).1).0 inner.2,
          omega (arith, inner.3),
        ),
        refl,
      )

  change_body-Settles :
      (config : WorkerPoolConfig) (unmarshal : Text → Option DocumentChangedEvent)
      (processor : Option (Text → W → Processed × W)) (msg : Msg) (p : WorkerPool) (w : W)
      → Settles p (change_body bus config unmarshal processor msg p w).0
  unfolding change_body
  change_body-Settles config unmarshal processor msg p w =
      elim (Option-cases (unmarshal msg.body)) [
        | inl bad ↦ rw (bad, change_body) (nak, refl, (refl, omega arith), refl)
        | inr (event, good) ↦ elim (Option-cases processor) [
          | inl idle ↦
              rw (good, change_body) (rw (idle, change_body) (ack, refl, (refl, refl, refl), refl))
          | inr (process_url, set) ↦ elim (Processed-cases (process_url event.source_url w).0) [
            | inr (docs, fetched) ↦
                rw (good, change_body)
                  (rw (set, change_body)
                    (rw (fetched, change_body) (ack, refl, (refl, refl, refl), refl)))
            | inl (e, failure) ↦ elim (Bool-cases (is_last config msg)) [
              | inl last ↦
                  rw (good, change_body)
                    (rw (set, change_body)
                      (rw (failure, change_body)
                        (rw (last, change_body) (term, refl, (refl, refl, refl), refl))))
              | inr again ↦
                  rw (good, change_body)
                    (rw (set, change_body)
                      (rw (failure, change_body)
                        (rw (again, change_body) (nak, refl, (refl, omega arith), refl))))
            ]
          ]
        ]
      ]

  processed_body-Settles :
      (unmarshal : Text → Option DocumentProcessedEvent) (msg : Msg) (p : WorkerPool) (w : W)
      → Settles p (processed_body bus unmarshal msg p w).0
  unfolding processed_body
  processed_body-Settles unmarshal msg p w = elim (Option-cases (unmarshal msg.body)) [
    | inl bad ↦ rw (bad, processed_body) (nak, refl, (refl, omega arith), refl)
    | inr (event, good) ↦
        let (indexed, w') =
          new_document_indexed_event bus event.document_id event.source_url event.source_type
            event.title [] [] w in
        elim (Option-cases (publish bus (document_indexed indexed) w').0) [
          | inl sent ↦
              rw (good, processed_body)
                (rw (sent, processed_body) (ack, refl, (refl, refl, refl), refl))
          | inr (e, unsent) ↦
              rw (good, processed_body)
                (rw (unsent, processed_body) (nak, refl, (refl, omega arith), refl))
        ]
  ]

  indexed_body-Settles :
      (unmarshal : Text → Option DocumentIndexedEvent) (msg : Msg) (p : WorkerPool) (w : W)
      → Settles p (indexed_body bus unmarshal msg p w).0
  unfolding indexed_body
  indexed_body-Settles unmarshal msg p w = elim (Option-cases (unmarshal msg.body)) [
    | inl bad ↦ rw (bad, indexed_body) (nak, refl, (refl, omega arith), refl)
    | inr (event, good) ↦ rw (good, indexed_body) (ack, refl, (refl, refl, refl), refl)
  ]

  -- Each handler says exactly one of ack, nak and term about its message and counts the job once, an
  -- acked one as processed, a terminated one as failed, another as failed or retried; no worker
  -- stays active or marked.
  pub handlers-Settle :
      (config : WorkerPoolConfig) (changed : Text → Option DocumentChangedEvent)
      (processed : Text → Option DocumentProcessedEvent)
      (indexed : Text → Option DocumentIndexedEvent) (processor : Option (Text → W → Processed × W))
      (msg : Msg) (p : WorkerPool) (w : W)
      → let a = (handle_document_changed bus config changed processor msg p w).0 in
        let b = (handle_document_processed bus processed msg p w).0 in
        let c = (handle_document_indexed bus indexed msg p w).0 in
        (Settles p a × (a.processing ≡ false))
        × (Settles p b × (b.processing ≡ false))
        × (Settles p c × (c.processing ≡ false))
  unfolding handle_document_changed handle_document_processed handle_document_indexed
  handlers-Settle config changed processed indexed processor msg p w = (
    handler-Settles (change_body bus config changed processor msg)
        (change_body-Settles config changed processor msg) p w,
    handler-Settles (processed_body bus processed msg) (processed_body-Settles processed msg) p w,
    handler-Settles (indexed_body bus indexed msg) (indexed_body-Settles indexed msg) p w,
  )
