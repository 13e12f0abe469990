-- ===== src/Realtime/Events.antt =====
-- internal/realtime/nats.go: the events, their checks and their publication. The bus is a record of
-- the calls that the code makes: identifiers, the clock, and the publication of an event. A JSON
-- value in metadata is the text of it.
use syara_ai.Base.{
  ℕ, Option, none, some, List, [], ◌++◌, length, Text, codes, text_eq, if◌then◌else◌, Dict,
}

pub record DocumentChangedEvent : Type 0 where
  pub event_id : Text
  pub source_url : Text
  pub source_type : Text
  pub category : Text
  pub detected_at : ℕ
  pub content_hash : Text
  pub metadata : Dict Text Text

pub record DocumentProcessedEvent : Type 0 where
  pub event_id : Text
  pub document_id : Text
  pub source_url : Text
  pub source_type : Text
  pub title : Text
  pub chunk_ids : List Text
  pub chunk_count : ℕ
  pub processed_at : ℕ

pub record DocumentIndexedEvent : Type 0 where
  pub event_id : Text
  pub document_id : Text
  pub source_url : Text
  pub source_type : Text
  pub title : Text
  pub affected_topics : List Text
  pub indexed_at : ℕ
  pub cache_keys : List Text

pub record CacheInvalidateEvent : Type 0 where
  pub event_id : Text
  pub cache_keys : List Text
  pub patterns : List Text
  pub reason : Text
  pub triggered_at : ℕ

pub data Event : Type 0 where
  document_changed : DocumentChangedEvent → Event
  document_processed : DocumentProcessedEvent → Event
  document_indexed : DocumentIndexedEvent → Event
  cache_invalidate : CacheInvalidateEvent → Event

abbrev pub subject_of : Event → Text
subject_of (document_changed e) = codes "updates.document.changed"
subject_of (document_processed e) = codes "updates.document.processed"
subject_of (document_indexed e) = codes "updates.document.indexed"
subject_of (cache_invalidate e) = codes "updates.cache.invalidate"

-- `send` marshals the event and publishes it to the subject; it gives the error, if any.
pub record Bus (W : Type 0) : Type 0 where
  pub new_id : W → Text × W
  pub now : W → ℕ × W
  pub send : Text → Event → W → Option Text × W

-- The first missing field among those that are required.
abbrev required : Text → Text → Option Text → Option Text
required field value later =
    if text_eq value [] then some (field ++ codes " is required") else later

-- `Validate` of an event; the invalidation of a cache is not checked.
unfoldable pub validate : Event → Option Text
validate (document_changed e) =
    required (codes "event_id") e.event_id (
      required (codes "source_url") e.source_url
        (required (codes "source_type") e.source_type none))
validate (document_processed e) =
    required (codes "event_id") e.event_id (required (codes "document_id") e.document_id none)
validate (document_indexed e) =
    required (codes "event_id") e.event_id (required (codes "document_id") e.document_id none)
validate (cache_invalidate e) = none

module _ {W : Type 0} (bus : Bus W) where
  -- `PublishDocumentChanged` and its kin.
  unfoldable pub publish : Event → W → Option Text × W
  publish event w = elim (validate event) [
    | some e ↦ (some (codes "invalid event: " ++ e), w)
    | none ↦ bus.send (subject_of event) event w
  ]

  unfoldable pub new_document_changed_event :
      Text → Text → Text → Text → W → DocumentChangedEvent × W
  new_document_changed_event source_url source_type category content_hash w =
      let (id, w') = bus.new_id w in
      let (time, w'') = bus.now w' in
      (
        record {
          event_id = id;
          source_url = source_url;
          source_type = source_type;
          category = category;
          detected_at = time;
          content_hash = content_hash;
          metadata = [];
        },
        w'',
      )

  unfoldable pub new_document_processed_event :
      Text → Text → Text → Text → List Text → W → DocumentProcessedEvent × W
  new_document_processed_event document_id source_url source_type title chunk_ids w =
      let (id, w') = bus.new_id w in
      let (time, w'') = bus.now w' in
      (
        record {
          event_id = id;
          document_id = document_id;
          source_url = source_url;
          source_type = source_type;
          title = title;
          chunk_ids = chunk_ids;
          chunk_count = length chunk_ids;
          processed_at = time;
        },
        w'',
      )

  unfoldable pub new_document_indexed_event :
      Text → Text → Text → Text → List Text → List Text → W → DocumentIndexedEvent × W
  new_document_indexed_event document_id source_url source_type title topics cache_keys w =
      let (id, w') = bus.new_id w in
      let (time, w'') = bus.now w' in
      (
        record {
          event_id = id;
          document_id = document_id;
          source_url = source_url;
          source_type = source_type;
          title = title;
          affected_topics = topics;
          indexed_at = time;
          cache_keys = cache_keys;
        },
        w'',
      )

  unfoldable pub new_cache_invalidate_event :
      List Text → List Text → Text → W → CacheInvalidateEvent × W
  new_cache_invalidate_event keys patterns reason w =
      let (id, w') = bus.new_id w in
      let (time, w'') = bus.now w' in
      (
        record {
          event_id = id;
          cache_keys = keys;
          patterns = patterns;
          reason = reason;
          triggered_at = time;
        },
        w'',
      )
