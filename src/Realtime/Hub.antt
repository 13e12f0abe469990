-- ===== src/Realtime/Hub.antt =====
-- internal/realtime/websocket.go: the hub and its clients. A client is a number with its object; the
-- hub's map of clients is the mark `registered` on the objects. A send on a closed channel is a
-- panic, which stays in the state. The connections, the pings of `writePump` and the bus are left out.
pub mod Steps
pub mod Sound
pub mod Limit
pub mod Topics
use syara_ai.Base.{
  ℕ, zero, suc, ◌+◌, ◌-◌, ◌*◌, ◌^◌, Bool, true, false, ◌&&◌, ◌||◌, not, Option, none, some, List,
  [], ◌∷◌, ◌++◌, map, ltb, leb, ◌==◌, if◌then◌else◌, length, drop, any, Text, codes, text_eq, Dict,
  lookup, insert, nat_eq,
}

pub record WsConfig : Type 0 where
  pub send_buffer_size : ℕ
  pub max_messages_per_second : ℕ

-- `is_open` says that the channel `send` is not closed, `reading` that `readPump` is in its loop.
pub record WsClient : Type 0 where
  pub registered : Bool
  pub is_open : Bool
  pub reading : Bool
  pub send : List Text
  pub topics : List Text
  pub last_message : ℕ
  pub message_count : ℕ

-- A decoded message of a client by its type; one that does not decode is `unknown`, too.
pub data ClientMessage : Type 0 where
  subscribe_to unsubscribe_from : Text → ClientMessage
  ping unknown : ClientMessage

pub record WsHub : Type 0 where
  pub clients : Dict ℕ WsClient
  pub running : Bool
  pub panicked : Bool
  pub connections_total : ℕ
  pub connections_current : ℕ
  pub messages_sent : ℕ
  pub messages_received : ℕ

abbrev pub new_ws_hub : WsHub
new_ws_hub = record {
  clients = [];
  running = true;
  panicked = false;
  connections_total = 0;
  connections_current = 0;
  messages_sent = 0;
  messages_received = 0;
}

-- The loop of `splitTopics` from one topic's start, with the bytes of it read so far.
unfoldable pub topics_from : Text → Text → List Text
topics_from [] [] = []
topics_from (d ∷ cur) [] = (d ∷ cur) ∷ []
topics_from cur (c ∷ s) = elim (c == b',') [
  | true ↦ elim cur [ [] ↦ topics_from [] s | d ∷ rest ↦ (d ∷ rest) ∷ topics_from [] s ]
  | false ↦ topics_from (cur ++ c ∷ []) s
]

unfoldable pub split_topics : Text → List Text
unfolding topics_from
split_topics topics = topics_from [] topics

unfoldable pub is_subscribed_to_any : WsClient → List Text → Bool
is_subscribed_to_any c wanted =
    length c.topics == 0 || any (λ topic. any (text_eq topic) c.topics) wanted

-- The keys of the map of topics.
unfoldable pub subscribe : Text → WsClient → WsClient
subscribe topic c =
    if any (text_eq topic) c.topics then c else record c { topics = c.topics ++ topic ∷ [] }

unfoldable pub without : Text → List Text → List Text
without topic [] = []
without topic (t ∷ ts) = let rest = without topic ts in if text_eq topic t then rest else t ∷ rest

unfoldable pub unsubscribe : Text → WsClient → WsClient
unfolding without
unsubscribe topic c = record c { topics = without topic c.topics }

module _ (config : WsConfig) where
  -- `select { case c.send <- message: default: }` on an open channel.
  abbrev pub has_room : WsClient → Bool
  has_room c = ltb (length c.send) config.send_buffer_size

  abbrev pub push : Text → WsClient → WsClient
  push message c = if has_room c then record c { send = c.send ++ message ∷ [] } else c

  -- The loop over the hub's clients that are wanted.
  unfoldable pub deliver : (WsClient → Bool) → Text → Dict ℕ WsClient → Dict ℕ WsClient
  deliver wanted message [] = []
  deliver wanted message ((id, c) ∷ cs) =
      (id, (if c.registered && wanted c then push message c else c)) ∷ deliver wanted message cs

  -- How many of them take the message.
  unfoldable pub delivered : (WsClient → Bool) → Dict ℕ WsClient → ℕ
  delivered wanted [] = 0
  delivered wanted ((id, c) ∷ cs) =
      (if c.registered && (wanted c && has_room c) then 1 else 0) + delivered wanted cs

  -- Whether one of them has a closed channel.
  unfoldable pub hits_closed : (WsClient → Bool) → Dict ℕ WsClient → Bool
  hits_closed wanted [] = false
  hits_closed wanted ((id, c) ∷ cs) =
      (c.registered && (wanted c && not c.is_open)) || hits_closed wanted cs

  unfoldable pub send_to : (WsClient → Bool) → Text → WsHub → WsHub
  unfolding deliver delivered hits_closed
  send_to wanted message h = record h {
    clients = deliver wanted message h.clients;
    panicked = h.panicked || hits_closed wanted h.clients;
    messages_sent = h.messages_sent + delivered wanted h.clients;
  }

  -- The case `message := <-h.broadcast` of `run`.
  unfoldable pub run_broadcast : Text → WsHub → WsHub
  unfolding send_to
  run_broadcast message h = send_to (λ c. true) message h

  -- With no topics the message goes to the broadcast channel, and so to `run_broadcast`.
  unfoldable pub broadcast_to_topics : Text → List Text → WsHub → WsHub
  unfolding send_to run_broadcast
  broadcast_to_topics message [] h = run_broadcast message h
  broadcast_to_topics message (t ∷ ts) h = send_to (λ c. is_subscribed_to_any c (t ∷ ts)) message h

  -- `HandleWebSocket` for a new client with the query's topics, and the case `<-h.register` of `run`.
  unfoldable pub run_register : ℕ → Text → ℕ → WsHub → WsHub
  unfolding split_topics
  run_register id topics now h = record h {
    clients =
        insert id
          (record {
            registered = true;
            is_open = true;
            reading = true;
            send = [];
            topics = split_topics topics;
            last_message = now;
            message_count = 0;
          })
          h.clients;
    connections_total = h.connections_total + 1;
    connections_current = h.connections_current + 1;
  }

  -- The end of a client's `readPump`, and the case `<-h.unregister` of `run`.
  unfoldable pub run_unregister : ℕ → WsClient → WsHub → WsHub
  run_unregister id c h =
      let left = record h { clients = insert id (record c { reading = false }) h.clients } in
      let removed = record h {
        clients =
            insert id (record c { reading = false; registered = false; is_open = false }) h.clients;
        panicked = h.panicked || not c.is_open;
        connections_current = h.connections_current - 1;
      } in
      if c.registered then removed else left

  -- `Stop` closes the channels of the hub's clients and drops them.
  unfoldable pub stop_clients : Dict ℕ WsClient → Dict ℕ WsClient
  stop_clients [] = []
  stop_clients ((id, c) ∷ cs) =
      (id, (if c.registered then record c { registered = false; is_open = false } else c))
      ∷ stop_clients cs

  unfoldable pub stop : WsHub → WsHub
  unfolding stop_clients hits_closed
  stop h = record h {
    clients = stop_clients h.clients;
    running = false;
    panicked = h.panicked || hits_closed (λ c. true) h.clients;
  }

  -- The rate limit of `readPump` at the time `now`: whether the message is handled.
  unfoldable pub admit : ℕ → WsClient → Bool × WsClient
  admit now c =
      let more = record c { message_count = c.message_count + 1 } in
      if ltb (now - c.last_message) (10 ^ 9)
      then (leb more.message_count config.max_messages_per_second, more)
      else (true, record c { message_count = 1; last_message = now })

  -- `handleMessage`: the client and whether a send on its closed channel panics. The pong's time is
  -- left out.
  unfoldable pub handle_message : ClientMessage → WsClient → Bool × WsClient
  unfolding subscribe unsubscribe
  handle_message (subscribe_to topic) c =
      (false, (if text_eq topic [] then c else subscribe topic c))
  handle_message (unsubscribe_from topic) c =
      (false, (if text_eq topic [] then c else unsubscribe topic c))
  handle_message ping c = (not c.is_open, push (codes "pong") c)
  handle_message unknown c = (false, c)

  -- One message in the loop of `readPump` of the client `c`.
  unfoldable pub read_message : ℕ → WsClient → ℕ → ClientMessage → WsHub → WsHub
  unfolding admit handle_message
  read_message id c now msg h =
      let (handled, counted) = admit now c in
      let (panic, answered) = handle_message msg counted in
      if handled
      then record h {
        clients = insert id answered h.clients;
        panicked = h.panicked || panic;
        messages_received = h.messages_received + 1;
      }
      else record h {
        clients = insert id counted h.clients;
        messages_received = h.messages_received + 1;
      }

  -- One message taken from a client's channel by `writePump`.
  abbrev pub taken : WsClient → WsClient
  taken c = record c { send = drop 1 c.send }

-- `GetMetrics`: the total, the current connections, the clients, the messages sent and received.
unfoldable pub registered_in : Dict ℕ WsClient → ℕ
registered_in [] = 0
registered_in ((id, c) ∷ cs) = (if c.registered then 1 else 0) + registered_in cs

unfoldable pub get_client_count : WsHub → ℕ
unfolding registered_in
get_client_count h = registered_in h.clients
