-- ===== src/Realtime/Worker/Ends.antt =====
-- internal/realtime/worker.go: the deliveries of one message to `handleDocumentChanged`.
use syara_ai.Base.{
  ℕ, zero, suc, ◌+◌, ◌≤◌, ◌<◌, ◌≡◌, refl, [], ◌∷◌, ◌++◌, ◌⊎◌, inl, inr, Text, arith, Option, some,
  Option-cases, Bool-cases, leb, dec_lt, subst,
}
use syara_ai.Realtime.Events.{Bus, DocumentChangedEvent}
use syara_ai.Realtime.Worker.{
  WorkerPoolConfig, WorkerPool, Disposition, ack, nak, term, Msg, Processed, change_body,
  handle_document_changed,
}
use syara_ai.Realtime.Worker.Settled.{Processed-cases}

module _ {W : Type 0} (bus : Bus W) (config : WorkerPoolConfig)
    (unmarshal : Text → Option DocumentChangedEvent) (processor : Option (Text → W → Processed × W))
    (body : Text) (pool : ℕ → WorkerPool) (world : ℕ → W) where
  -- The `k`-th delivery of the message, to the pool and in the world at its time.
  abbrev pub delivery : ℕ → WorkerPool
  delivery k =
      (handle_document_changed bus config unmarshal processor
        (record { body = body; num_delivered = some k }) (pool k) (world k)).0

  abbrev pub Says : Disposition → ℕ → Type 0
  Says d k = (delivery k).said ≡ (pool k).said ++ d ∷ []

  module _ (event : DocumentChangedEvent) (good : unmarshal body ≡ some event) where
    -- A delivery ends the message, unless it is followed by another.
    delivery-cases : (k : ℕ) → (Says ack k ⊎ Says term k) ⊎ (Says nak k × (k < config.max_deliver))
    unfolding handle_document_changed change_body
    delivery-cases k =
        let msg : Msg = record { body = body; num_delivered = some k } in
        let w' = (bus.now (world k)).1 in
        elim (Option-cases processor) [
          | inl idle ↦ rw (good, change_body) (rw (idle, change_body) (inl (inl refl)))
          | inr (process_url, set) ↦ elim (Processed-cases (process_url event.source_url w').0) [
            | inr (docs, fetched) ↦
                rw (good, change_body)
                  (rw (set, change_body) (rw (fetched, change_body) (inl (inl refl))))
            | inl (e, failure) ↦ elim (Bool-cases (leb config.max_deliver k)) [
              | inl last ↦
                  rw (good, change_body)
                    (rw (set, change_body)
                      (rw (failure, change_body) (rw (last, change_body) (inl (inr refl)))))
              | inr again ↦
                  rw (good, change_body)
                    (rw (set, change_body)
                      (rw (failure, change_body)
                        (rw (again, change_body) (inr (refl, ground arith)))))
            ]
          ]
        ]

    before-suc :
        (k : ℕ)
        → ((j : ℕ) → 1 ≤ j → j < k → Says nak j)
        → Says nak k
        → (j : ℕ) → 1 ≤ j
        → j < suc k
        → Says nak j
    before-suc k before again j pos lt = elim (dec_lt j k) [
      | yes earlier ↦ before j pos earlier
      | no other ↦ let e : k ≡ j = omega arith in subst (Says nak) e again
    ]

    -- The first delivery from `k` on that ends the message.
    ends_from :
        (left k : ℕ)
        → config.max_deliver ≤ k + left
        → k ≤ config.max_deliver
        → ((j : ℕ) → 1 ≤ j → j < k → Says nak j)
        → (n : ℕ) × (k ≤ n)
          × (n ≤ config.max_deliver)
          × (Says ack n ⊎ Says term n)
          × ((j : ℕ) → 1 ≤ j → j < n → Says nak j)
    ends_from zero k near within before = elim (delivery-cases k) [
      | inl ended ↦ (k, omega arith, within, ended, before)
      | inr (again, more) ↦ absurd (omega arith)
    ]
    ends_from (suc left) k near within before = elim (delivery-cases k) [
      | inl ended ↦ (k, omega arith, within, ended, before)
      | inr (again, more) ↦
          let (n, from, to, ended, naks) =
            ends_from left (suc k) (omega arith) (omega arith) (before-suc k before again) in
          (n, omega arith, to, ended, naks)
    ]

  -- A message that decodes comes to an end: where it is delivered again after each nak, one of its
  -- first MaxDeliver deliveries, whatever the pool and the world at each, says ack or term, and all
  -- before it say nak.
  pub handle_document_changed-ends :
      (event : DocumentChangedEvent)
      → unmarshal body ≡ some event
      → 1 ≤ config.max_deliver
      → (n : ℕ) × (1 ≤ n)
        × (n ≤ config.max_deliver)
        × (Says ack n ⊎ Says term n)
        × ((j : ℕ) → 1 ≤ j → j < n → Says nak j)
  handle_document_changed-ends event good some_delivery =
      ends_from event good config.max_deliver 1 (omega arith) some_delivery
        (λ j pos lt. absurd (omega arith))
