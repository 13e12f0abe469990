-- ===== src/Agent/Memory/Tests.antt =====
-- Runs of the conversation memory at concrete inputs, and its theorems there.
use syara_ai.Base.{
  All, ℕ, ◌+◌, ◌≡◌, ◌≢◌, ◌⊎◌, refl, true, false, none, some, List, [], ◌∷◌, ◌++◌, map, take, any,
  Text, codes, pos, lookup, insert, nat_eq,
}
use syara_ai.Agent.Memory.{
  Message, Database, Memory, insert_failed, get_history, fetch, message, save_message, save,
  stamped, active_of, fit, get_context_messages, collect_topics, extract_topic, contains_string,
}
use syara_ai.Agent.Memory.History.{
  IsStamped, IsEnd, Accepts, Refuses, Answers, get_history-save_message, map-save, spoken,
}
use syara_ai.Agent.Memory.Context.{IsLongestEnd, get_context_messages-IsLongestEnd}
use syara_ai.Agent.Memory.Sentences.{IsTopicOf}
use syara_ai.Agent.Memory.Topics.{IsDistinctTopics, is_topic, collect_topics-IsDistinctTopics}

-- The world is a counter that gives the identifiers and the times.
abbrev fresh : ℕ → ℕ × ℕ
fresh w = (w + 1, w + 1)

abbrev said : Text → ℕ → Message
said content at = record {
  id = at;
  conversation_id = 1;
  role = codes "user";
  content = content;
  created_at = at;
}

abbrev first_said : Message
first_said = said (codes "What is a sukuk? Tell me.") 1

abbrev second_said : Message
second_said = said (codes "And who issues it in Malaysia") 2

-- A database with two messages of conversation 1, which refuses to store any more.
abbrev full_db : Database ℕ
full_db = record {
  insert_message = λ msg w. (false, w);
  touch_conversation = λ id w. w;
  select_messages = λ id limit w. (some (take limit (second_said ∷ first_said ∷ [])), w);
  delete_messages = λ id w. (true, w);
}

abbrev start : Memory ℕ
start = record {
  db = some full_db;
  cache = none;
  config = record { max_history_messages = 20; max_tokens = 8; enable_cache = true };
  active = [];
}

-- A first read with a small limit leaves only its messages to later reads.
limit_remembered :
    (get_history (get_history start 1 (pos 1) 0).1 1 (pos 10) 0).0 ≡ some (second_said ∷ [])
unfolding get_history fetch lookup insert
limit_remembered = refl

-- A message saved before the first read hides the stored ones.
stored_hidden :
    map
      (λ (m : Message). m.created_at)
      (elim (get_history
        (save_message fresh fresh start (said (codes "new") 3) 0).1
        1
        (pos 10)
        0).0 [ none ↦ [] | some msgs ↦ msgs ])
    ≡ 3 ∷ []
unfolding get_history save_message stamped lookup insert
stored_hidden = refl

get_history-save_message_example :
    let m' = (save_message fresh fresh start second_said 0).1 in
    (stored : Message) × (kept : List Message) × IsStamped fresh fresh second_said 0 stored
    × IsEnd 10 (active_of start 1 ++ stored ∷ []) kept
    × (get_history m' 1 (pos 10) 5 ≡ (some kept, m', 5))
    × ((other : ℕ) → 1 ≢ other → active_of m' other ≡ active_of start other)
get_history-save_message_example =
    get_history-save_message fresh fresh start second_said 0 (pos 10) 5

abbrev asking : Message
asking = message 1 (codes "user") (codes "q") 1 2

abbrev answering : Message
answering = message 1 (codes "assistant") (codes "a") 3 4

-- The full database refuses the question.
map-save_example :
    let m1 = (save_message fresh fresh start asking 2).1 in
    let (err, m', w') = save fresh fresh start 1 (codes "q") (codes "a") 0 in
    let old = map spoken (active_of start 1) in
    let asked = old ++ (codes "user", codes "q") ∷ [] in
    (Refuses fresh fresh start asking 2
      × (err ≡ some insert_failed)
      × (map spoken (active_of m' 1) ≡ asked))
    ⊎ (Accepts fresh fresh start asking 2
        × Answers fresh fresh m1 answering 4 err
        × (map spoken (active_of m' 1) ≡ asked ++ (codes "assistant", codes "a") ∷ []))
unfolding save_message stamped message lookup insert
map-save_example = map-save fresh fresh start 1 (codes "q") (codes "a") 0

start_history : (get_history start 1 (pos 20) 0).0 ≡ some (first_said ∷ second_said ∷ [])
unfolding get_history fetch lookup
start_history = refl

get_context_messages-IsLongestEnd_example :
    (kept : List Message) × ((get_context_messages start 1 (pos 0) 0).0 ≡ some kept)
    × IsLongestEnd 8 (first_said ∷ second_said ∷ []) kept
get_context_messages-IsLongestEnd_example =
    get_context_messages-IsLongestEnd start 1 (pos 0) 0 (first_said ∷ second_said ∷ [])
      start_history

context_kept : (get_context_messages start 1 (pos 0) 0).0 ≡ some (second_said ∷ [])
unfolding get_context_messages get_history fetch fit lookup
context_kept = refl

collect_topics-IsDistinctTopics_example :
    IsDistinctTopics (collect_topics (first_said ∷ second_said ∷ []) [])
    × (contains_string (collect_topics (first_said ∷ second_said ∷ []) []) (codes "What is a sukuk")
        ≡ any (is_topic (codes "What is a sukuk")) (first_said ∷ second_said ∷ []))
    × All (λ msg. IsTopicOf msg.content (extract_topic msg.content)) (first_said ∷ second_said ∷ [])
collect_topics-IsDistinctTopics_example =
    collect_topics-IsDistinctTopics (first_said ∷ second_said ∷ []) (codes "What is a sukuk")
