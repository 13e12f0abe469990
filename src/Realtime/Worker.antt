-- ===== src/Realtime/Worker.antt =====
-- internal/realtime/worker.go: the handlers of the worker pool. What a handler says to the bus about
-- its message is a list in the state; log lines and the start of the workers are left out.
pub mod Settled
pub mod Ends
pub mod Tests
use syara_ai.Base.{
  ℕ, ◌+◌, ◌-◌, Bool, true, false, ◌||◌, Option, none, some, List, [], ◌∷◌, ◌++◌, map, ltb, leb,
  if◌then◌else◌, length, Text, codes,
}
use syara_ai.Realtime.Events.{
  DocumentChangedEvent, DocumentProcessedEvent, DocumentIndexedEvent, document_processed,
  document_indexed, cache_invalidate, Bus, publish, new_document_processed_event,
  new_document_indexed_event, new_cache_invalidate_event,
}

pub record WorkerPoolConfig : Type 0 where
  pub crawl_workers : ℕ
  pub process_workers : ℕ
  pub index_workers : ℕ
  pub max_retries : ℕ
  pub max_deliver : ℕ

abbrev pub default_worker_pool_config : WorkerPoolConfig
default_worker_pool_config = record {
  crawl_workers = 3;
  process_workers = 2;
  index_workers = 2;
  max_retries = 3;
  max_deliver = 4;
}

pub record ProcessedDocument : Type 0 where
  pub id : Text
  pub url : Text
  pub title : Text
  pub content : Text
  pub source_type : Text
  pub category : Text
  pub processed_at : ℕ

-- `Ack`, `Nak` and `Term` of a message.
pub data Disposition : Type 0 where
  ack nak term : Disposition

-- A message with its number of deliveries, where its metadata is known.
pub record Msg : Type 0 where
  pub body : Text
  pub num_delivered : Option ℕ

pub record WorkerMetrics : Type 0 where
  pub jobs_processed : ℕ
  pub jobs_failed : ℕ
  pub jobs_retried : ℕ
  pub current_active : ℕ
  pub total_latency_ms : ℕ
  pub last_processed_at : ℕ

-- The pool as one worker sees it: with its mark `processing`, and what was said about the message.
pub record WorkerPool : Type 0 where
  pub metrics : WorkerMetrics
  pub processing : Bool
  pub said : List Disposition

abbrev pub say : Disposition → WorkerPool → WorkerPool
say d p = record p { said = p.said ++ d ∷ [] }

abbrev pub count_failed : WorkerPool → WorkerPool
count_failed p = record p {
  metrics = record (p.metrics) { jobs_failed = p.metrics.jobs_failed + 1 };
}

abbrev pub count_retried : WorkerPool → WorkerPool
count_retried p = record p {
  metrics = record (p.metrics) { jobs_retried = p.metrics.jobs_retried + 1 };
}

abbrev pub count_processed : ℕ → WorkerPool → WorkerPool
count_processed time p = record p {
  metrics = record (p.metrics) {
    jobs_processed = p.metrics.jobs_processed + 1;
    last_processed_at = time;
  };
}

-- What a handler does first, and what it defers to its end.
abbrev pub begin : WorkerPool → WorkerPool
begin p = record p {
  processing = true;
  metrics = record (p.metrics) { current_active = p.metrics.current_active + 1 };
}

abbrev pub finish : ℕ → WorkerPool → WorkerPool
finish latency p = record p {
  processing = false;
  metrics = record (p.metrics) {
    current_active = p.metrics.current_active - 1;
    total_latency_ms = p.metrics.total_latency_ms + latency;
  };
}

pub data Processed : Type 0 where
  failed : Text → Processed
  found : List ProcessedDocument → Processed

-- Whether the message was delivered as often as it may be.
abbrev pub is_last : WorkerPoolConfig → Msg → Bool
is_last config msg = elim msg.num_delivered [ none ↦ false | some n ↦ leb config.max_deliver n ]

module _ {W : Type 0} (bus : Bus W) where
  -- A handler around its body: the start and the deferred end, with the time between them.
  abbrev handler : (WorkerPool → W → WorkerPool × W) → WorkerPool → W → WorkerPool × W
  handler body p w =
      let (start, w') = bus.now w in
      let (p', w'') = body (begin p) w' in
      let (time, w''') = bus.now w'' in (finish (time - start) p', w''')

  -- `Ack`, and the counters of a processed job.
  abbrev acknowledge : WorkerPool → W → WorkerPool × W
  acknowledge p w = let (time, w') = bus.now w in (count_processed time (say ack p), w')

  -- The loop over the documents of a page: a failed publication is logged only.
  unfoldable pub publish_processed : List ProcessedDocument → W → W
  unfolding new_document_processed_event publish
  publish_processed [] w = w
  publish_processed (doc ∷ docs) w =
      let (event, w') =
        new_document_processed_event bus doc.id doc.url doc.source_type doc.title [] w in
      publish_processed docs (publish bus (document_processed event) w').1

  module _ (config : WorkerPoolConfig) where
    -- The body of `handleDocumentChanged`; without a processor there is nothing to do.
    unfoldable pub change_body :
        (Text → Option DocumentChangedEvent)
        → Option (Text → W → Processed × W)
        → Msg
        → WorkerPool
        → W
        → WorkerPool × W
    change_body unmarshal processor msg p w = elim (unmarshal msg.body) [
      | none ↦ (count_failed (say nak p), w)
      | some event ↦ elim processor [
        | none ↦ acknowledge p w
        | some process_url ↦
            let (result, w') = process_url event.source_url w in
            elim result [
              | failed e ↦
                  if is_last config msg
                  then (count_failed (say term p), w')
                  else (count_retried (say nak p), w')
              | found documents ↦ acknowledge p (publish_processed documents w')
            ]
      ]
    ]

    unfoldable pub handle_document_changed :
        (Text → Option DocumentChangedEvent)
        → Option (Text → W → Processed × W)
        → Msg
        → WorkerPool
        → W
        → WorkerPool × W
    unfolding change_body publish_processed
    handle_document_changed unmarshal processor msg = handler (change_body unmarshal processor msg)

  unfoldable pub processed_body :
      (Text → Option DocumentProcessedEvent) → Msg → WorkerPool → W → WorkerPool × W
  unfolding new_document_indexed_event publish
  processed_body unmarshal msg p w = elim (unmarshal msg.body) [
    | none ↦ (count_failed (say nak p), w)
    | some event ↦
        let (indexed, w') =
          new_document_indexed_event bus event.document_id event.source_url event.source_type
            event.title [] [] w in
        let (error, w'') = publish bus (document_indexed indexed) w' in
        elim error [ some e ↦ (count_failed (say nak p), w'') | none ↦ acknowledge p w'' ]
  ]

  unfoldable pub handle_document_processed :
      (Text → Option DocumentProcessedEvent) → Msg → WorkerPool → W → WorkerPool × W
  unfolding processed_body
  handle_document_processed unmarshal msg = handler (processed_body unmarshal msg)

  -- The invalidation of the cache: a failed publication is logged only.
  unfoldable pub invalidate : DocumentIndexedEvent → W → W
  unfolding new_cache_invalidate_event publish
  invalidate event w =
      let patterns = map (λ t. codes "query_cache:" ++ t ++ codes "*") event.affected_topics in
      let (cache_event, w') =
        new_cache_invalidate_event bus event.cache_keys patterns
          (codes "document_indexed:" ++ event.document_id) w in
      (publish bus (cache_invalidate cache_event) w').1

  unfoldable pub indexed_body :
      (Text → Option DocumentIndexedEvent) → Msg → WorkerPool → W → WorkerPool × W
  unfolding invalidate
  indexed_body unmarshal msg p w = elim (unmarshal msg.body) [
    | none ↦ (count_failed (say nak p), w)
    | some event ↦ acknowledge p (
        if ltb 0 (length event.cache_keys) || ltb 0 (length event.affected_topics)
        then invalidate event w
        else w)
  ]

  unfoldable pub handle_document_indexed :
      (Text → Option DocumentIndexedEvent) → Msg → WorkerPool → W → WorkerPool × W
  unfolding indexed_body
  handle_document_indexed unmarshal msg = handler (indexed_body unmarshal msg)
