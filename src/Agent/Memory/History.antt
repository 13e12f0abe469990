-- ===== src/Agent/Memory/History.antt =====
-- internal/agent/memory.go: what `GetHistory` gives after `SaveMessage` and `Save`, and what these do
-- to other conversations.
use syara_ai.Base.{
  zero, suc, pos, negsuc, positive_or, min, leb, length, length-last, take, take-append-drop, ◌-◌,
  ℕ, ◌≡◌, refl, ap, ◌∙◌, none, some, List, [], ◌∷◌, ◌++◌, map, ◌==◌, if◌then◌else◌, Option-cases,
  Bool-cases, inl, inr, Text, codes, ℤ, insert, nat_eq, lookup-insert, ==_iff, arith, ◌≢◌, ◌⊎◌,
}
use syara_ai.Agent.Memory.{
  Database, Failure, MemoryConfig, Message, insert_failed, Memory, active_of, newest,
  limit_or_default, get_history, stamped, save_message, message, save, Option, false, true,
}

-- The role and the content of a message.
abbrev pub spoken : Message → Text × Text
spoken msg = (msg.role, msg.content)

-- The last `n` messages of a list, or all of fewer.
pub record IsEnd (n : ℕ) (all kept : List Message) : Type 0 where
  pub older : List Message
  pub split : older ++ kept ≡ all
  pub size : length kept ≡ min n (length all)

newest-IsEnd : (n : ℕ) (all : List Message) → IsEnd n all (newest n all)
newest-IsEnd n all = elim (Bool-cases (leb (length all) n)) [
  | inl few ↦ rw few (record { older = []; split = refl; size = ground arith })
  | inr more ↦ rw more (record {
    older = take (length all - n) all;
    split = take-append-drop (length all - n) all;
    size = omega (arith, length-last n all);
  })
]

limit_or_default-positive_or :
    (limit : ℤ) (config : MemoryConfig)
    → limit_or_default limit config ≡ positive_or config.max_history_messages limit
limit_or_default-positive_or (pos zero) config = refl
limit_or_default-positive_or (pos (suc n)) config = refl
limit_or_default-positive_or (negsuc n) config = refl

-- A number that stands for none where it is 0, with what replaces it then.
given_or_new :
    {W : Type 0} (n : ℕ) (new : ℕ × W) (w : W)
    → let r = (if n == 0 then new else (n, w)) in ((n ≡ 0) × (r.0 ≡ new.0)) ⊎ ((n ≢ 0) × (r.0 ≡ n))
given_or_new n new w = elim (Bool-cases (n == 0)) [
  | inl none_given ↦ rw none_given (inl ((==_iff n 0).0 none_given, refl))
  | inr given ↦ rw given (inr (λ e. cc (given, (==_iff n 0).1 e), refl))
]

module _ {W : Type 0} where
  -- A conversation that is in memory is read from there.
  get_history-active :
      (m : Memory W) (id : ℕ) (limit : ℤ) (w : W) (msgs : List Message) (msg : Message)
      → active_of m id ≡ msgs ++ msg ∷ []
      → get_history m id limit w
        ≡ (some (newest (limit_or_default limit m.config) (msgs ++ msg ∷ [])), m, w)
  unfolding get_history
  get_history-active m id limit w [] msg e = rw (e, get_history) refl
  get_history-active m id limit w (x ∷ msgs) msg e = rw (e, get_history) refl

  module _ (new_uuid : W → ℕ × W) (now : W → ℕ × W) where
    save_message-memory :
        (m : Memory W) (msg : Message) (w : W)
        → (save_message new_uuid now m msg w).1 ≡ record m {
          active =
              insert msg.conversation_id
                (active_of m msg.conversation_id ++ (stamped new_uuid now msg w).0 ∷ [])
                m.active;
        }
    unfolding save_message
    save_message-memory m msg w = elim (Option-cases m.db) [
      | inl absent ↦ rw absent refl
      | inr (db, present) ↦
          let sent =
            db.insert_message (stamped new_uuid now msg w).0 (stamped new_uuid now msg w).1 in
          elim (Bool-cases sent.0) [
            | inl saved ↦ rw present (rw saved refl)
            | inr lost ↦ rw present (rw lost refl)
          ]
    ]

    pub active_of-save_message :
        (m : Memory W) (msg : Message) (w : W) (id : ℕ)
        → active_of (save_message new_uuid now m msg w).1 id ≡ (
            if msg.conversation_id == id
            then active_of m id ++ (stamped new_uuid now msg w).0 ∷ []
            else active_of m id)
    active_of-save_message m msg w id =
        let cid = msg.conversation_id in
        let longer = active_of m cid ++ (stamped new_uuid now msg w).0 ∷ [] in
        elim (Bool-cases (cid == id)) [
          | inl same ↦
              let e = (==_iff cid id).0 same in
              rw
                (save_message-memory m msg w, active_of, lookup-insert cid id longer m.active, same)
                (ap (λ i. active_of m i ++ (stamped new_uuid now msg w).0 ∷ []) e)
          | inr other ↦
              rw
                (
                  save_message-memory m msg w,
                  active_of,
                  lookup-insert cid id longer m.active,
                  other,
                )
                refl
        ]

    -- What is known of the message that is stored: the one that is saved, with a new identifier where
    -- it has none, and the time where it has none.
    pub IsStamped : Message → W → Message → Type 0
    IsStamped msg w stored =
        (stored.conversation_id ≡ msg.conversation_id)
        × (spoken stored ≡ spoken msg)
        × (((msg.id ≡ 0) × (stored.id ≡ (new_uuid w).0)) ⊎ ((msg.id ≢ 0) × (stored.id ≡ msg.id)))
        × (((msg.created_at ≡ 0) × (w' : W) × (stored.created_at ≡ (now w').0))
            ⊎ ((msg.created_at ≢ 0) × (stored.created_at ≡ msg.created_at)))

    stamped-IsStamped : (msg : Message) (w : W) → IsStamped msg w (stamped new_uuid now msg w).0
    unfolding IsStamped stamped
    stamped-IsStamped msg w =
        let w1 = (if msg.id == 0 then new_uuid w else (msg.id, w)).1 in
        (
          refl,
          refl,
          given_or_new msg.id (new_uuid w) w,
          elim (given_or_new msg.created_at (now w1) w1) [
            | inl (none_given, e) ↦ inl (none_given, w1, e)
            | inr given ↦ inr given
          ],
        )

    -- After `SaveMessage`, also where the database fails, `GetHistory` gives the end of the
    -- conversation in memory with the message behind it, with an identifier and a time where it had
    -- none: all of that, or the last messages up to the limit, which is the configured one where the
    -- limit is not positive. It asks neither the cache nor the database, and the messages of the
    -- other conversations in memory are as they were.
    pub get_history-save_message :
        (m : Memory W) (msg : Message) (w : W) (limit : ℤ) (w' : W)
        → let m' = (save_message new_uuid now m msg w).1 in
          let id = msg.conversation_id in
          (stored : Message) × (kept : List Message) × IsStamped msg w stored
          × IsEnd
              (positive_or m.config.max_history_messages limit)
              (active_of m id ++ stored ∷ [])
              kept
          × (get_history m' id limit w' ≡ (some kept, m', w'))
          × ((other : ℕ) → id ≢ other → active_of m' other ≡ active_of m other)
    get_history-save_message m msg w limit w' =
        let m' = (save_message new_uuid now m msg w).1 in
        let stored = (stamped new_uuid now msg w).0 in
        let all = active_of m msg.conversation_id ++ stored ∷ [] in
        let n = positive_or m.config.max_history_messages limit in
        let same_limit : limit_or_default limit m'.config ≡ n =
          ap (λ (k : Memory W). limit_or_default limit k.config) (save_message-memory m msg w)
          ∙ limit_or_default-positive_or limit m.config in
        (
          stored,
          newest n all,
          stamped-IsStamped msg w,
          newest-IsEnd n all,
          get_history-active m' msg.conversation_id limit w' (active_of m msg.conversation_id)
                stored (ground (arith, active_of-save_message m msg w msg.conversation_id))
              ∙ ap (λ k. (some (newest k all), m', w')) same_limit,
          λ other ne. ground (arith, active_of-save_message m msg w other),
        )

    map_concat :
        (msgs : List Message) (msg : Message)
        → map spoken (msgs ++ msg ∷ []) ≡ map spoken msgs ++ spoken msg ∷ []
    map_concat [] msg = refl
    map_concat (x ∷ msgs) msg = ap (◌∷◌ (spoken x)) (map_concat msgs msg)

    pub spoken-save_message :
        (m : Memory W) (msg : Message) (w : W)
        → map spoken (active_of (save_message new_uuid now m msg w).1 msg.conversation_id)
          ≡ map spoken (active_of m msg.conversation_id) ++ spoken msg ∷ []
    unfolding stamped
    spoken-save_message m msg w =
        let cid = msg.conversation_id in
        ap (map spoken) (ground (arith, active_of-save_message m msg w cid))
        ∙ map_concat (active_of m cid) (stamped new_uuid now msg w).0

    -- What the database says to a message that `SaveMessage` is given: there is none, or it stores it.
    abbrev pub Accepts : Memory W → Message → W → Type 0
    Accepts m msg w =
        let (stored, w1) = stamped new_uuid now msg w in
        (m.db ≡ none)
        ⊎ ((db : Database W) × (m.db ≡ some db) × ((db.insert_message stored w1).0 ≡ true))

    abbrev pub Refuses : Memory W → Message → W → Type 0
    Refuses m msg w =
        let (stored, w1) = stamped new_uuid now msg w in
        (db : Database W) × (m.db ≡ some db) × ((db.insert_message stored w1).0 ≡ false)

    -- The error is there exactly if the database refuses the message.
    abbrev pub Answers : Memory W → Message → W → Option Failure → Type 0
    Answers m msg w err =
        (Accepts m msg w × (err ≡ none)) ⊎ (Refuses m msg w × (err ≡ some insert_failed))

    save_message-Answers :
        (m : Memory W) (msg : Message) (w : W)
        → Answers m msg w (save_message new_uuid now m msg w).0
    unfolding save_message
    save_message-Answers m msg w = elim (Option-cases m.db) [
      | inl absent ↦ inl (inl absent, rw absent refl)
      | inr (db, present) ↦
          let sent =
            db.insert_message (stamped new_uuid now msg w).0 (stamped new_uuid now msg w).1 in
          elim (Bool-cases sent.0) [
            | inl saved ↦ inl (inr (db, present, saved), rw present (rw saved refl))
            | inr lost ↦ inr ((db, present, lost), rw present (rw lost refl))
          ]
    ]

    -- `Save` puts the question behind the conversation. Where the database refuses the question, that
    -- is all, and the error is returned. Where it stores it, or there is none, the answer is put
    -- behind the question, and the error that is returned is there exactly if the database refuses
    -- the answer.
    pub map-save :
        (m : Memory W) (id : ℕ) (question answer : Text) (w : W)
        → let (uuid, w1) = new_uuid w in
          let (time, w2) = now w1 in
          let asking = message id (codes "user") question uuid time in
          let (e1, m1, w3) = save_message new_uuid now m asking w2 in
          let (uuid', w4) = new_uuid w3 in
          let (time', w5) = now w4 in
          let answering = message id (codes "assistant") answer uuid' time' in
          let (err, m', w') = save new_uuid now m id question answer w in
          let old = map spoken (active_of m id) in
          let asked = old ++ (codes "user", question) ∷ [] in
          (Refuses m asking w2
            × (err ≡ some insert_failed)
            × (map spoken (active_of m' id) ≡ asked))
          ⊎ (Accepts m asking w2
              × Answers m1 answering w5 err
              × (map spoken (active_of m' id) ≡ asked ++ (codes "assistant", answer) ∷ []))
    unfolding save message
    map-save m id question answer w =
        let (uuid, w1) = new_uuid w in
        let (time, w2) = now w1 in
        let asking = message id (codes "user") question uuid time in
        let (err, m', w3) = save_message new_uuid now m asking w2 in
        let (uuid', w4) = new_uuid w3 in
        let (time', w5) = now w4 in
        let answering = message id (codes "assistant") answer uuid' time' in
        elim (save_message-Answers m asking w2) [
          | inl (accepted, done) ↦ inr (
              rw (done, save)
                (
                  accepted,
                  save_message-Answers m' answering w5,
                  spoken-save_message m' answering w5
                      ∙ ap (λ s. s ++ spoken answering ∷ []) (spoken-save_message m asking w2),
                ))
          | inr (refused, lost) ↦
              inl (rw (lost, save) (refused, refl, spoken-save_message m asking w2))
        ]
