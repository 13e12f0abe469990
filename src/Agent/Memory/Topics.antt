-- ===== src/Agent/Memory/Topics.antt =====
-- internal/agent/memory.go: the topics that `Summarize` lists.
use syara_ai.Base.{
  All, ltb, length, not, ◌&&◌, codes, ◌∙◌, ◌≡◌, refl, ap, Bool, true, false, ◌||◌, none, some, List,
  [], ◌∷◌, ◌++◌, Option-cases, Bool-cases, inl, inr, Text, text_eq, text_eq_iff, any, arith,
}
use syara_ai.Agent.Memory.{Message, contains_string, topic_of, extract_topic, collect_topics}
use syara_ai.Agent.Memory.Sentences.{IsTopicOf, extract_topic-IsTopicOf}

-- No topic stands twice.
abbrev pub IsDistinctTopics : List Text → Type 0
IsDistinctTopics [] = Unit
IsDistinctTopics (t ∷ ts) = (contains_string ts t ≡ false) × IsDistinctTopics ts

-- Whether a text is the topic of a message that has one: of a user's message of more than ten bytes,
-- where `extract_topic` finds some text in it.
abbrev pub is_topic : Text → Message → Bool
is_topic t msg =
    text_eq msg.role (codes "user")
    && (ltb 10 (length msg.content)
        && (text_eq (extract_topic msg.content) t && not (text_eq t [])))

is_topic-topic_of :
    (t : Text) (msg : Message)
    → is_topic t msg ≡ elim (topic_of msg) [ none ↦ false | some topic ↦ text_eq topic t ]
unfolding topic_of
is_topic-topic_of t msg = ground (
  arith,
  text_eq_iff (extract_topic msg.content) t,
  text_eq_iff (extract_topic msg.content) [],
  text_eq_iff t [],
)

contains_string-append :
    (ts : List Text) (x t : Text)
    → contains_string (ts ++ x ∷ []) t ≡ (contains_string ts t || text_eq x t)
unfolding contains_string
contains_string-append [] x t = ground arith
contains_string-append (s ∷ ts) x t = ground (arith, contains_string-append ts x t)

append-IsDistinctTopics :
    (ts : List Text) (x : Text)
    → contains_string ts x ≡ false
    → IsDistinctTopics ts
    → IsDistinctTopics (ts ++ x ∷ [])
unfolding contains_string
append-IsDistinctTopics [] x new h = (refl, tt)
append-IsDistinctTopics (t ∷ ts) x new (head, h) = (
  ground (arith, contains_string-append ts x t, text_eq_iff t x, text_eq_iff x t),
  append-IsDistinctTopics ts x (ground arith) h,
)

-- A topic is the same text or is in the list: `contains_string` reads only the text.
contains_string-same :
    (ts : List Text) (x t : Text) → text_eq x t ≡ true → contains_string ts x ≡ contains_string ts t
contains_string-same ts x t h = ap (contains_string ts) ((text_eq_iff x t).0 h)

collect_topics_from :
    (msgs : List Message) (topics : List Text) (t : Text)
    → IsDistinctTopics topics
    → IsDistinctTopics (collect_topics msgs topics)
      × (contains_string (collect_topics msgs topics) t
          ≡ (contains_string topics t || any (is_topic t) msgs))
unfolding collect_topics
collect_topics_from [] topics t h = (h, ground arith)
collect_topics_from (msg ∷ msgs) topics t h = elim (Option-cases (topic_of msg)) [
  | inl nothing ↦
      let ih = collect_topics_from msgs topics t h in
      let it : is_topic t msg ≡ false = is_topic-topic_of t msg ∙ rw nothing refl in
      rw nothing (ih.0, ground (arith, ih.1, it))
  | inr (x, e) ↦
      let it : is_topic t msg ≡ text_eq x t = is_topic-topic_of t msg ∙ rw e refl in
      elim (Bool-cases (contains_string topics x)) [
        | inl old ↦
            let ih = collect_topics_from msgs topics t h in
            rw e (rw old (ih.0, ground (arith, ih.1, it, contains_string-same topics x t)))
        | inr new ↦
            let ih =
              collect_topics_from msgs (topics ++ x ∷ []) t
                (append-IsDistinctTopics topics x new h) in
            rw e (rw new (ih.0, ground (arith, ih.1, it, contains_string-append topics x t)))
      ]
]

-- `Summarize` lists each topic once, and lists just the topics, where not empty, of the user's
-- messages of more than ten bytes. A message's topic is the first sentence of its trimmed content, or
-- else the first question, where these end in the first 100 bytes, or else the content; of more than
-- 50 bytes the first 50, cut at a late space, with three dots.
pub collect_topics-IsDistinctTopics :
    (msgs : List Message) (t : Text)
    → IsDistinctTopics (collect_topics msgs [])
      × (contains_string (collect_topics msgs []) t ≡ any (is_topic t) msgs)
      × All (λ msg. IsTopicOf msg.content (extract_topic msg.content)) msgs
collect_topics-IsDistinctTopics msgs t =
    let (once, found) = collect_topics_from msgs [] t tt in
    (once, unfold contains_string in found, all_topics msgs)
  where
    all_topics : (ms : List Message) → All (λ m. IsTopicOf m.content (extract_topic m.content)) ms
    all_topics [] = tt
    all_topics (m ∷ ms) = (extract_topic-IsTopicOf m.content, all_topics ms)
