-- ===== src/Realtime/Worker/Tests.antt =====
-- Runs of the worker pool's handlers at concrete inputs, and their theorems there.
use syara_ai.Base.{
  ℕ, suc, ◌≤◌, ◌<◌, ◌≡◌, refl, ◌⊎◌, false, none, some, [], ◌∷◌, Text, codes, arith, if◌then◌else◌,
  ◌*◌, ltb,
}
use syara_ai.Realtime.Events.{DocumentChangedEvent, Bus, publish, new_document_processed_event}
use syara_ai.Realtime.Worker.{
  WorkerPool, default_worker_pool_config, ack, nak, term, Msg, Processed, failed, found,
  change_body, handle_document_changed, handle_document_processed, handle_document_indexed,
  publish_processed,
}
use syara_ai.Realtime.Worker.Settled.{Settles, handlers-Settle}
use syara_ai.Realtime.Worker.Ends.{delivery, Says, handle_document_changed-ends}

-- The world is its clock.
abbrev bus : Bus ℕ
bus = record {
  new_id = λ w. (codes "id", w);
  now = λ w. (w, suc w);
  send = λ subject event w. (none, w);
}

abbrev idle : WorkerPool
idle = record {
  metrics = record {
    jobs_processed = 0;
    jobs_failed = 0;
    jobs_retried = 0;
    current_active = 0;
    total_latency_ms = 0;
    last_processed_at = 0;
  };
  processing = false;
  said = [];
}

abbrev changed : DocumentChangedEvent
changed = record {
  event_id = codes "e";
  source_url = codes "u";
  source_type = codes "bnm";
  category = [];
  detected_at = 0;
  content_hash = [];
  metadata = [];
}

-- A page that is down before time 20.
abbrev fetch : Text → ℕ → Processed × ℕ
fetch url w = (if ltb w 20 then failed (codes "down") else found [], suc w)

-- The fourth delivery is the last.
four_deliveries :
    let say = λ (k : ℕ).
      (delivery bus default_worker_pool_config
        (λ body. some changed)
        (some fetch)
        []
        (λ j. idle)
        (λ j. j)
        k).said in
    (say 1 ≡ nak ∷ []) × (say 3 ≡ nak ∷ []) × (say 4 ≡ term ∷ [])
unfolding handle_document_changed change_body publish_processed publish new_document_processed_event
four_deliveries = (refl, refl, refl)

handle_document_changed-ends_example :
    let Heard =
      Says bus default_worker_pool_config
        (λ body. some changed)
        (some fetch)
        []
        (λ j. idle)
        (λ j. 9 * j) in
    (n : ℕ) × (1 ≤ n)
    × (n ≤ 4)
    × (Heard ack n ⊎ Heard term n)
    × ((j : ℕ) → 1 ≤ j → j < n → Heard nak j)
handle_document_changed-ends_example =
    handle_document_changed-ends bus default_worker_pool_config (λ body. some changed) (some fetch)
      [] (λ j. idle) (λ j. 9 * j) changed refl (omega arith)

abbrev message : Msg
message = record { body = []; num_delivered = some 2 }

handlers-Settle_example :
    let a =
      (handle_document_changed bus default_worker_pool_config
        (λ body. some changed)
        (some fetch)
        message
        idle
        3).0 in
    let b = (handle_document_processed bus (λ body. none) message idle 3).0 in
    let c = (handle_document_indexed bus (λ body. none) message idle 3).0 in
    (Settles idle a × (a.processing ≡ false))
    × (Settles idle b × (b.processing ≡ false))
    × (Settles idle c × (c.processing ≡ false))
handlers-Settle_example =
    handlers-Settle bus default_worker_pool_config (λ body. some changed) (λ body. none)
      (λ body. none) (some fetch) message idle 3
