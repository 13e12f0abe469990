-- ===== src/Api/Tests.antt =====
-- Runs of the rate limiter at concrete inputs, and its theorems there.
use syara_ai.Base.{
  ◌≡◌, refl, none, List, [], ◌∷◌, min, codes, lookup, text_equality, IsDistinct, arith,
}
use syara_ai.Api.RateLimit.Client.{Request, get_client_id}
use syara_ai.Api.RateLimit.Store.{MemoryStore, current, increment, get_count, cleanup}
use syara_ai.Api.RateLimit.{RateLimitConfig, RateLimitMetrics, default_rate_limit_config, key_of}
use syara_ai.Api.RateLimit.Window.{Event, request, sweep, requests, served, served-window}
use syara_ai.Api.RateLimit.Cleanup.{increment-cleanup}

abbrev from_proxy : Request
from_proxy = record {
  x_forwarded_for = codes " 10.0.0.1 , 10.0.0.2";
  x_real_ip = [];
  remote_addr = codes "127.0.0.1:80";
}

abbrev direct : Request
direct = record { x_forwarded_for = []; x_real_ip = []; remote_addr = codes "[::1]:80" }

client_ids : (get_client_id from_proxy ≡ codes "10.0.0.1") × (get_client_id direct ≡ codes "::1")
unfolding get_client_id
client_ids = (refl, refl)

abbrev two_chats : RateLimitConfig
two_chats = record default_rate_limit_config {
  chat_requests = record { requests = 2; window = 10 };
}

abbrev no_metrics : RateLimitMetrics
no_metrics = record { allowed = []; rejected = [] }

abbrev events : List Event
events =
    request direct 1
    ∷ request from_proxy 2
    ∷ sweep 3
    ∷ request from_proxy 4
    ∷ request from_proxy 9
    ∷ []

no_entry : current (key_of (codes "chat") from_proxy) 0 [] ≡ none
unfolding lookup
no_entry = refl

served-window_example :
    served two_chats
      (codes "chat")
      (key_of (codes "chat") from_proxy)
      (request from_proxy 0 ∷ events)
      []
      no_metrics
    ≡ min 2 (
        requests two_chats
          (codes "chat")
          (key_of (codes "chat") from_proxy)
          (request from_proxy 0 ∷ events))
served-window_example =
    served-window two_chats (codes "chat") from_proxy 0 events [] no_metrics no_entry
      (omega arith, (omega arith, (omega arith, (omega arith, (omega arith, tt)))))

abbrev two_entries : MemoryStore
two_entries =
    (codes "a", record { count = 3; expires_at = 5 })
    ∷ (codes "b", record { count = 1; expires_at = 50 })
    ∷ []

two_entries-IsDistinct : IsDistinct two_entries
unfolding lookup
two_entries-IsDistinct = (refl, (refl, tt))

increment-cleanup_example :
    ((increment (codes "a") 10 7 (cleanup 6 two_entries)).0
      ≡ (increment (codes "a") 10 7 two_entries).0)
    × (get_count (codes "a") 7 (cleanup 6 two_entries) ≡ get_count (codes "a") 7 two_entries)
    × IsDistinct (cleanup 6 two_entries)
    × IsDistinct (increment (codes "a") 10 7 two_entries).1
increment-cleanup_example =
    increment-cleanup (codes "a") 10 6 7 two_entries two_entries-IsDistinct (omega arith)
