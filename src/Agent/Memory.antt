-- ===== src/Agent/Memory.antt =====
-- internal/agent/memory.go: the conversation memory, in front of a database and a Redis cache that
-- act on a world `W`. An identifier is a number, 0 for the nil UUID. Each critical section is one
-- step. The database and the cache are not under the repository: they are records of functions.
pub mod Context
pub mod History
pub mod Topics
pub mod Sentences
pub mod Tests
use syara_ai.Base.{
  ℕ, zero, suc, ◌+◌, ◌-◌, ◌/◌, Bool, true, false, ◌&&◌, ◌||◌, not, Option, none, some, List, [],
  ◌∷◌, ◌++◌, reverse, ltb, leb, ◌==◌, if◌then◌else◌, length, take, last, any, Text, codes, text_eq,
  Dict, lookup, insert, remove, nat_eq, ℤ, pos, is_nonpos, pos_part, index, last_index, trim_space,
}

-- `Role` is the column's string; citations, tool calls and results are carried along unread.
pub record Message : Type 0 where
  pub id : ℕ
  pub conversation_id : ℕ
  pub role : Text
  pub content : Text
  pub created_at : ℕ

pub record MemoryConfig : Type 0 where
  pub max_history_messages : ℕ
  pub max_tokens : ℕ
  pub enable_cache : Bool

pub data Failure : Type 0 where
  insert_failed select_failed delete_failed : Failure

-- The statements that the memory sends; `false` and `none` are errors of the driver. `select`
-- gives the rows that can be scanned, newest first.
pub record Database (W : Type 0) : Type 0 where
  pub insert_message : Message → W → Bool × W
  pub touch_conversation : ℕ → W → W
  pub select_messages : ℕ → ℕ → W → Option (List Message) × W
  pub delete_messages : ℕ → W → Bool × W

-- The key `conv:history:<id>` with the JSON of the messages: `none` is a miss, an error, or a value
-- that does not decode.
pub record HistoryCache (W : Type 0) : Type 0 where
  pub get : ℕ → W → Option (List Message) × W
  pub set : ℕ → List Message → W → W
  pub del : ℕ → W → W

pub record Memory (W : Type 0) : Type 0 where
  pub db : Option (Database W)
  pub cache : Option (HistoryCache W)
  pub config : MemoryConfig
  pub active : Dict ℕ (List Message)

-- `activeConversations[id]`, nil where there is none.
abbrev pub active_of : {W : Type 0} → Memory W → ℕ → List Message
active_of m id = elim (lookup id m.active) [ none ↦ [] | some msgs ↦ msgs ]

-- The last `limit` messages, as the method cuts them.
abbrev pub newest : ℕ → List Message → List Message
newest limit msgs = if leb (length msgs) limit then msgs else last limit msgs

abbrev pub limit_or_default : ℤ → MemoryConfig → ℕ
limit_or_default limit config =
    if is_nonpos limit then config.max_history_messages else pos_part limit

abbrev pub Fetched : Type 0
Fetched = Option (List Message)

-- The token estimate of a text.
abbrev pub estimate_tokens : Text → ℕ
estimate_tokens s = length s / 4

-- The cache that is asked, if any.
abbrev pub enabled_cache : {W : Type 0} → Memory W → Option (HistoryCache W)
enabled_cache m = if m.config.enable_cache then m.cache else none

unfoldable pub message : ℕ → Text → Text → ℕ → ℕ → Message
message conversation_id role content uuid time = record {
  id = uuid;
  conversation_id = conversation_id;
  role = role;
  content = content;
  created_at = time;
}

module _ {W : Type 0} where
  read_cache : Memory W → ℕ → W → Option (List Message) × W
  read_cache m id w = elim (enabled_cache m) [ none ↦ (none, w) | some c ↦ c.get id w ]

  write_cache : Memory W → ℕ → List Message → W → W
  write_cache m id [] w = w
  write_cache m id (msg ∷ msgs) w = elim (enabled_cache m) [
    | none ↦ w
    | some c ↦ c.set id (msg ∷ msgs) w
  ]

  drop_cache : Memory W → ℕ → W → W
  drop_cache m id w = elim (enabled_cache m) [ none ↦ w | some c ↦ c.del id w ]

  -- The query, and the two caches filled from its rows.
  unfoldable pub fetch : Memory W → ℕ → ℕ → W → Fetched × Memory W × W
  unfolding write_cache
  fetch m id limit w = elim m.db [
    | none ↦ (some [], m, w)
    | some db ↦
        let (rows, w1) = db.select_messages id limit w in
        elim rows [
          | none ↦ (none, m, w1)
          | some newest_first ↦
              let msgs = reverse newest_first in
              (some msgs, record m { active = insert id msgs m.active }, write_cache m id msgs w1)
        ]
  ]

  -- `none` is the error of the query.
  unfoldable pub get_history : Memory W → ℕ → ℤ → W → Fetched × Memory W × W
  unfolding read_cache fetch
  get_history m id limit w =
      let n = limit_or_default limit m.config in
      elim (active_of m id) [
        | msg ∷ msgs ↦ (some (newest n (msg ∷ msgs)), m, w)
        | [] ↦
            let (cached, w1) = read_cache m id w in
            elim cached [ some msgs ↦ (some (newest n msgs), m, w1) | none ↦ fetch m id n w1 ]
      ]

  module _ (new_uuid : W → ℕ × W) (now : W → ℕ × W) where
    -- The message with an identifier and a time where it has none.
    unfoldable pub stamped : Message → W → Message × W
    stamped msg w =
        let (uuid, w1) = (if msg.id == 0 then new_uuid w else (msg.id, w)) in
        let (time, w2) = (if msg.created_at == 0 then now w1 else (msg.created_at, w1)) in
        (record msg { id = uuid; created_at = time }, w2)

    -- The error, if any, beside the memory.
    unfoldable pub save_message : Memory W → Message → W → Option Failure × Memory W × W
    unfolding stamped drop_cache
    save_message m msg0 w =
        let (msg, w1) = stamped msg0 w in
        let id = msg0.conversation_id in
        let m' = record m { active = insert id (active_of m id ++ msg ∷ []) m.active } in
        elim m.db [
          | none ↦ (none, m', drop_cache m id w1)
          | some db ↦
              let (saved, w2) = db.insert_message msg w1 in
              if saved
              then (none, m', drop_cache m id (db.touch_conversation id w2))
              else (some insert_failed, m', w2)
        ]

    unfoldable pub save : Memory W → ℕ → Text → Text → W → Option Failure × Memory W × W
    unfolding save_message message
    save m id question answer w =
        let (uuid, w1) = new_uuid w in
        let (time, w2) = now w1 in
        let (err, m', w3) = save_message m (message id (codes "user") question uuid time) w2 in
        elim err [
          | some e ↦ (some e, m', w3)
          | none ↦
              let (uuid', w4) = new_uuid w3 in
              let (time', w5) = now w4 in
              save_message m' (message id (codes "assistant") answer uuid' time') w5
        ]

  unfoldable pub clear : Memory W → ℕ → W → Option Failure × Memory W × W
  unfolding drop_cache
  clear m id w =
      let m' = record m { active = remove id m.active } in
      let w1 = drop_cache m id w in
      elim m.db [
        | none ↦ (none, m', w1)
        | some db ↦
            let (deleted, w2) = db.delete_messages id w1 in
            ((if deleted then none else some delete_failed), m', w2)
      ]

-- The loop of `GetContextMessages` over the messages newest first: `kept` are the messages taken,
-- oldest first, and `total` their tokens.
unfoldable pub fit : ℕ → List Message → ℕ → List Message → List Message
fit max_tokens [] total kept = kept
fit max_tokens (msg ∷ older) total kept =
    let tokens = estimate_tokens msg.content in
    let rest = fit max_tokens older (total + tokens) (msg ∷ kept) in
    if ltb max_tokens (total + tokens) then kept else rest

module _ {W : Type 0} where
  unfoldable pub get_context_messages : Memory W → ℕ → ℤ → W → Fetched × Memory W × W
  get_context_messages m id max_tokens w =
      let budget = if is_nonpos max_tokens then m.config.max_tokens else pos_part max_tokens in
      let (fetched, m', w') = get_history m id (pos m.config.max_history_messages) w in
      (elim fetched [ none ↦ none | some msgs ↦ some (fit budget (reverse msgs) 0 []) ], m', w')

-- A text cut at 50 bytes, at a space where one stands late enough.
pub shorten : Text → Text
unfolding last_index
shorten content =
    let truncated = take 50 content in
    let at_space : Text = elim (last_index truncated (codes " ")) [
      | some i ↦ if ltb 30 i then take i truncated else truncated
      | none ↦ truncated
    ] in
    if ltb 50 (length content) then at_space ++ codes "..." else content

-- The part before the first `end`, where that is a short one.
pub sentence : Text → Text → Option Text
unfolding index
sentence end content = elim (index content end) [
  | some i ↦ if ltb 0 i && ltb i 100 then some (take i content) else none
  | none ↦ none
]

-- The topic of a message: its first sentence, or its first 50 bytes.
unfoldable pub extract_topic : Text → Text
unfolding trim_space shorten sentence
extract_topic content0 =
    let content = trim_space content0 in
    elim (sentence (codes ". ") content) [
      | some topic ↦ topic
      | none ↦ elim (sentence (codes "? ") content) [ some topic ↦ topic | none ↦ shorten content ]
    ]

unfoldable pub contains_string : List Text → Text → Bool
contains_string [] s = false
contains_string (t ∷ ts) s = text_eq t s || contains_string ts s

-- The topic that the loop of `Summarize` adds for a message, if it has not got it yet.
unfoldable pub topic_of : Message → Option Text
topic_of msg =
    let topic = extract_topic msg.content in
    if text_eq msg.role (codes "user") && (ltb 10 (length msg.content) && not (text_eq topic []))
    then some topic
    else none

-- The loop of `Summarize`.
unfoldable pub collect_topics : List Message → List Text → List Text
collect_topics [] topics = topics
collect_topics (msg ∷ msgs) topics =
    let with_topic : List Text = elim (topic_of msg) [
      | none ↦ topics
      | some topic ↦ if contains_string topics topic then topics else topics ++ topic ∷ []
    ] in
    collect_topics msgs with_topic
