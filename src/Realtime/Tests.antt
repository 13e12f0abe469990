-- ===== src/Realtime/Tests.antt =====
-- Runs of the hub at concrete inputs, and its theorems there.
use syara_ai.Base.{
  ℕ, ◌+◌, ◌-◌, ◌≡◌, refl, true, false, none, some, [], ◌∷◌, min, length, codes, join, lookup,
  insert, nat_eq, arith,
}
use syara_ai.Realtime.Hub.{
  WsConfig, WsClient, WsHub, ping, new_ws_hub, run_register, broadcast_to_topics, read_message,
  stop, split_topics, admit, handle_message, stop_clients, hits_closed,
}
use syara_ai.Realtime.Hub.Steps.{register, broadcast, Reachable, initial, next, IsSound}
use syara_ai.Realtime.Hub.Sound.{Reachable-IsSound}
use syara_ai.Realtime.Hub.Limit.{handled, handled-min}
use syara_ai.Realtime.Hub.Topics.{split_topics-join}

abbrev config : WsConfig
config = record { send_buffer_size = 2; max_messages_per_second = 10 }

abbrev client : WsClient
client = record {
  registered = true;
  is_open = true;
  reading = true;
  send = [];
  topics = codes "riba" ∷ [];
  last_message = 5;
  message_count = 0;
}

abbrev joined : WsHub
joined = record new_ws_hub {
  clients = (1, client) ∷ [];
  connections_total = 1;
  connections_current = 1;
}

run_register_joined : run_register config 1 (codes "riba,") 5 new_ws_hub ≡ joined
unfolding run_register split_topics insert
run_register_joined = refl

new_hub_has_no_client : lookup 1 new_ws_hub.clients ≡ none
unfolding lookup
new_hub_has_no_client = refl

abbrev told : WsHub
told =
    broadcast_to_topics config (codes "new") (codes "riba" ∷ [])
      (run_register config 1 (codes "riba,") 5 new_ws_hub)

told-Reachable : Reachable config told
unfolding run_register
told-Reachable =
    next (run_register config 1 (codes "riba,") 5 new_ws_hub) told
      (next new_ws_hub (run_register config 1 (codes "riba,") 5 new_ws_hub) initial
        (register new_ws_hub 1 (codes "riba,") 5 refl new_hub_has_no_client))
      (broadcast (run_register config 1 (codes "riba,") 5 new_ws_hub) (codes "new")
        (codes "riba" ∷ []) refl)

Reachable-IsSound_example : IsSound config told
Reachable-IsSound_example = Reachable-IsSound config told told-Reachable

-- A ping that is read after `Stop` sends on a closed channel, and the metric keeps the old number.
ping_after_stop :
    let stopped = stop config joined in
    let late = record client { registered = false; is_open = false } in
    (lookup 1 stopped.clients ≡ some late)
    × ((read_message config 1 late 6 ping stopped).panicked ≡ true)
    × (stopped.connections_current ≡ 1)
unfolding stop stop_clients hits_closed read_message admit handle_message lookup
ping_after_stop = (refl, refl, refl)

handled-min_example :
    handled config (3000000000 ∷ 3000000001 ∷ 3000000002 ∷ []) client
    ≡ 1 + min (10 - 1) (length {A = ℕ} (3000000001 ∷ 3000000002 ∷ []))
handled-min_example =
    handled-min config 3000000000 (3000000001 ∷ 3000000002 ∷ []) client (omega arith)
      (omega arith, (omega arith, tt))

split_topics-join_example :
    split_topics (join (codes "riba" ∷ codes "sukuk" ∷ []) (codes ","))
    ≡ codes "riba" ∷ codes "sukuk" ∷ []
split_topics-join_example =
    split_topics-join (codes "riba" ∷ codes "sukuk" ∷ []) ((refl, refl), ((refl, refl), tt))
