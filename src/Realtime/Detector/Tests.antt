-- ===== src/Realtime/Detector/Tests.antt =====
-- Runs of the change detector at concrete inputs, and its theorem there.
use syara_ai.Base.{
  ℕ, zero, suc, ◌≡◌, refl, append-nil, sym, none, some, true, Option, List, [], ◌∷◌, ◌++◌, Text,
  codes, text_equality,
}
use syara_ai.Realtime.Events.{Bus, Event, publish, validate, new_document_changed_event}
use syara_ai.Realtime.Redis.{refused, replied, Redis}
use syara_ai.Realtime.Fetch.{MonitoredSource, normalize_content, host_of}
use syara_ai.Realtime.Detector.{
  ChangeDetector, new_detector_metrics, compare_hash, publish_change_event,
}
use syara_ai.Realtime.Detector.Changes.{IsStore, hash_of, checks}

-- The stored hash, the hashes sent, and how often the bus refuses from now on.
record World : Type 0 where
  stored : Option Text
  sent : List Text
  refusals : ℕ

abbrev after_send : ℕ → Event → World → Option Text × World
after_send zero event w = (none, record w { sent = w.sent ++ hash_of event })
after_send (suc n) event w = (some (codes "down"), record w { refusals = n })

abbrev bus : Bus World
bus = record {
  new_id = λ w. (codes "id", w);
  now = λ w. (5, w);
  send = λ subject event w. after_send w.refusals event w;
}

abbrev redis : Redis World
redis = record {
  get = λ key w. (replied w.stored, w);
  set = λ key value w. (replied tt, record w { stored = some value });
  del = λ keys w. (replied 0, w);
  scan = λ cursor pattern n w. (replied ([], 0), w);
  publish = λ channel body w. (replied tt, w);
}

after_send-sends :
    (n : ℕ) (event : Event) (w : World)
    → ((after_send n event w).1.stored ≡ w.stored)
      × ((after_send n event w).1.sent
          ≡ w.sent ++ elim (after_send n event w).0 [ none ↦ hash_of event | some e ↦ [] ])
after_send-sends zero event w = (refl, refl)
after_send-sends (suc n) event w = (refl, sym (append-nil w.sent))

redis-IsStore : (key : Text) → IsStore bus redis key (λ w. w.stored) (λ w. w.sent)
redis-IsStore key = record {
  get_reads = λ w. (refl, refl, refl);
  set_writes = λ h w. (refl, refl);
  now_keeps = λ w. (refl, refl);
  id_keeps = λ w. (refl, refl);
  send_sends = λ subject event w. after_send-sends w.refusals event w;
}

abbrev source : MonitoredSource
source = record {
  url = codes "https://bnm.gov.my/circulars";
  check_interval = codes "5m0s";
  source_type = codes "bnm";
  category = codes "circulars";
  name = codes "BNM";
  enabled = true;
}

abbrev detector : ChangeDetector
detector = record {
  config = record {
    sources = source ∷ [];
    max_retries = 3;
    retry_delay = 5;
    hash_cache_prefix = codes "h:";
  };
  metrics = new_detector_metrics;
}

abbrev hash_a : Text
hash_a = codes "aaaaaaaaaaaaaaaa"

abbrev hash_b : Text
hash_b = codes "bbbbbbbbbbbbbbbb"

abbrev start : World
start = record { stored = some hash_a; sent = []; refusals = 1 }

-- The first announcement of "b" is refused, and the next check announces it.
two_checks :
    (checks source
      (redis-IsStore (codes "h:https://bnm.gov.my/circulars"))
      (hash_b ∷ hash_b ∷ [])
      detector
      start).1.sent
    ≡ hash_b ∷ []
unfolding checks compare_hash publish_change_event publish validate new_document_changed_event
two_checks = refl

-- A change is lost where Redis refuses to read the stored hash: it is taken for a first check.
abbrev unreadable : Redis World
unreadable = record redis { get = λ key w. (refused (codes "timeout"), w) }

lost_change :
    let r = compare_hash bus unreadable source hash_b detector (record start { refusals = 0 }) in
    (r.1.sent ≡ []) × (r.1.stored ≡ some hash_b)
unfolding compare_hash
lost_change = (refl, refl)

-- Only the first name of a kind is cut out, and its quoted value stays.
second_nonce_stays :
    normalize_content (codes "<a nonce=\"x\"><b nonce=\"y\">") ≡ codes "<a \"x\"><b nonce=\"y\">"
unfolding normalize_content
second_nonce_stays = refl

host : host_of (codes "https://bnm.gov.my/circulars") ≡ codes "bnm.gov.my"
unfolding host_of
host = refl
