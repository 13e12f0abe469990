-- ===== src/Realtime/Hub/Sound.antt =====
-- internal/realtime/websocket.go: every state that the hub reaches is sound.
use syara_ai.Base.{
  ℕ, ◌-◌, ◌≡◌, refl, sym, ◌∙◌, Bool, true, false, Bool-cases, inl, inr, none, some, List, [], ◌∷◌,
  if◌then◌else◌, length-drop, Text, codes, lookup, insert, insert-All, lookup-All, nat_eq, arith,
  text_eq, ltb, ◌^◌, any, ltb, ◌^◌,
}
use syara_ai.Realtime.Hub.{
  WsConfig, WsClient, WsHub, ClientMessage, ping, unknown, subscribe_to, unsubscribe_from, has_room,
  send_to, run_broadcast, broadcast_to_topics, run_register, run_unregister, stop, admit,
  handle_message, read_message, taken, registered_in, is_subscribed_to_any, subscribe, unsubscribe,
  get_client_count,
}
use syara_ai.Realtime.Hub.Steps.{
  Step, register, unregister, broadcast, read, write, halt, Reachable, initial, next, IsSoundClient,
  IsSound, registered_in-insert_new, registered_in-insert_old, registered_in-deliver,
  push-IsSoundClient, deliver-All, hits_closed-All, stop_clients-All,
}

module _ (config : WsConfig) where
  send_to-IsSound :
      (wanted : WsClient → Bool) (message : Text) (h : WsHub)
      → IsSound config h
      → IsSound config (send_to config wanted message h)
  unfolding send_to get_client_count
  send_to-IsSound wanted message h s = record {
    clients_sound = deliver-All config h.running wanted message h.clients s.clients_sound;
    counted = λ on. s.counted on ∙ sym (registered_in-deliver config wanted message h.clients);
    no_panic = λ on.
        ground
          (arith, s.no_panic on, hits_closed-All config h.running wanted h.clients s.clients_sound);
  }

  broadcast_to_topics-IsSound :
      (message : Text) (topics : List Text) (h : WsHub)
      → IsSound config h
      → IsSound config (broadcast_to_topics config message topics h)
  unfolding broadcast_to_topics run_broadcast
  broadcast_to_topics-IsSound message [] h s = send_to-IsSound (λ c. true) message h s
  broadcast_to_topics-IsSound message (t ∷ ts) h s =
      send_to-IsSound (λ c. is_subscribed_to_any c (t ∷ ts)) message h s

  run_register-IsSound :
      (id : ℕ) (topics : Text) (now : ℕ) (h : WsHub)
      → lookup id h.clients ≡ none
      → IsSound config h
      → IsSound config (run_register config id topics now h)
  unfolding run_register get_client_count
  run_register-IsSound id topics now h new s = record {
    clients_sound =
        insert-All (IsSoundClient config h.running) id _ h.clients (refl, (λ on. refl), omega arith)
          s.clients_sound;
    counted = λ on. omega (arith, s.counted on, registered_in-insert_new config id _ h.clients new);
    no_panic = s.no_panic;
  }

  -- A choice between two states, with the test in reach.
  if-IsSound :
      (b : Bool) (h h' : WsHub)
      → (b ≡ true → IsSound config h)
      → (b ≡ false → IsSound config h')
      → IsSound config (if b then h else h')
  if-IsSound true h h' s s' = s refl
  if-IsSound false h h' s s' = s' refl

  run_unregister-IsSound :
      (id : ℕ) (c : WsClient) (h : WsHub)
      → lookup id h.clients ≡ some c
      → IsSound config h
      → IsSound config (run_unregister config id c h)
  unfolding run_unregister get_client_count
  run_unregister-IsSound id c h found s =
      let (o, r, l) =
        lookup-All (IsSoundClient config h.running) id c h.clients found s.clients_sound in
      let away : WsClient = record c { reading = false } in
      let gone : WsClient = record c { reading = false; registered = false; is_open = false } in
      if-IsSound c.registered _ _
        (λ member. record {
          clients_sound =
              insert-All (IsSoundClient config h.running) id gone h.clients (refl, (λ on. refl), l)
                s.clients_sound;
          counted = λ on. ground (
            arith,
            s.counted on,
            member,
            registered_in-insert_old config id c gone h.clients found,
          );
          no_panic = λ on. ground (arith, s.no_panic on, o, member);
        })
        (λ stranger. record {
          clients_sound =
              insert-All (IsSoundClient config h.running) id away h.clients
                (o, (λ on. sym stranger), l) s.clients_sound;
          counted = λ on.
              omega
                (arith, s.counted on, registered_in-insert_old config id c away h.clients found);
          no_panic = s.no_panic;
        })

  admit-IsSoundClient :
      (running : Bool) (id now : ℕ) (c : WsClient)
      → IsSoundClient config running (id, c)
      → IsSoundClient config running (id, (admit config now c).1)
        × ((admit config now c).1.registered ≡ c.registered)
  unfolding admit
  admit-IsSoundClient running id now c s = elim (Bool-cases (ltb (now - c.last_message) (10 ^ 9))) [
    | inl soon ↦ rw soon (s, refl)
    | inr late ↦ rw late (s, refl)
  ]

  -- A message of a client whose channel is open does not panic.
  handle_message-IsSoundClient :
      (running : Bool) (id : ℕ) (msg : ClientMessage) (c : WsClient)
      → IsSoundClient config running (id, c)
      → IsSoundClient config running (id, (handle_message config msg c).1)
        × ((handle_message config msg c).1.registered ≡ c.registered)
        × (c.is_open ≡ true → (handle_message config msg c).0 ≡ false)
  unfolding handle_message subscribe unsubscribe
  handle_message-IsSoundClient running id ping c s = (
    push-IsSoundClient config running (codes "pong") id c s,
    elim (Bool-cases (has_room config c)) [ inl room ↦ rw room refl | inr full ↦ rw full refl ],
    λ e. ground (arith, e),
  )
  handle_message-IsSoundClient running id unknown c s = (s, refl, λ e. refl)
  handle_message-IsSoundClient running id (subscribe_to topic) c s =
      elim (Bool-cases (text_eq topic [])) [
        | inl empty ↦ rw empty (s, refl, λ e. refl)
        | inr some_topic ↦ elim (Bool-cases (any (text_eq topic) c.topics)) [
          | inl there ↦ rw (some_topic, there) (s, refl, λ e. refl)
          | inr absent ↦ rw (some_topic, absent) (s, refl, λ e. refl)
        ]
      ]
  handle_message-IsSoundClient running id (unsubscribe_from topic) c s =
      elim (Bool-cases (text_eq topic [])) [
        | inl empty ↦ rw empty (s, refl, λ e. refl)
        | inr some_topic ↦ rw some_topic (s, refl, λ e. refl)
      ]

  read_message-IsSound :
      (id : ℕ) (c : WsClient) (now : ℕ) (msg : ClientMessage) (h : WsHub)
      → lookup id h.clients ≡ some c
      → c.reading ≡ true
      → IsSound config h
      → IsSound config (read_message config id c now msg h)
  unfolding read_message get_client_count
  read_message-IsSound id c now msg h found reads s =
      let sound =
        lookup-All (IsSoundClient config h.running) id c h.clients found s.clients_sound in
      let counted = (admit config now c).1 in
      let (sound', same) = admit-IsSoundClient h.running id now c sound in
      let (sound'', same', calm) = handle_message-IsSoundClient h.running id msg counted sound' in
      let answered = (handle_message config msg counted).1 in
      if-IsSound (admit config now c).0 _ _
        (λ handled. record {
          clients_sound =
              insert-All (IsSoundClient config h.running) id answered h.clients sound''
                s.clients_sound;
          counted = λ on. ground (
            arith,
            s.counted on,
            same,
            same',
            registered_in-insert_old config id c answered h.clients found,
          );
          no_panic = λ on.
              ground (arith, s.no_panic on, calm (sym sound'.0 ∙ same ∙ sym (sound.1 on) ∙ reads));
        })
        (λ dropped. record {
          clients_sound =
              insert-All (IsSoundClient config h.running) id counted h.clients sound'
                s.clients_sound;
          counted = λ on. ground (
            arith,
            s.counted on,
            same,
            registered_in-insert_old config id c counted h.clients found,
          );
          no_panic = s.no_panic;
        })

  stop-IsSound : (h : WsHub) → IsSound config h → IsSound config (stop config h)
  unfolding stop
  stop-IsSound h s = record {
    clients_sound = stop_clients-All config h.running h.clients s.clients_sound;
    counted = λ on. absurd cc;
    no_panic = λ on. absurd cc;
  }

  write-IsSound :
      (id : ℕ) (c : WsClient) (h : WsHub)
      → lookup id h.clients ≡ some c
      → IsSound config h
      → IsSound config (record h { clients = insert id (taken config c) h.clients })
  unfolding get_client_count
  write-IsSound id c h found s =
      let (o, r, l) =
        lookup-All (IsSoundClient config h.running) id c h.clients found s.clients_sound in
      record {
        clients_sound =
            insert-All (IsSoundClient config h.running) id (taken config c) h.clients
              (o, r, omega (arith, length-drop 1 c.send)) s.clients_sound;
        counted = λ on. omega (
          arith,
          s.counted on,
          registered_in-insert_old config id c (taken config c) h.clients found,
        );
        no_panic = s.no_panic;
      }

  step-IsSound : (h h' : WsHub) → Step config h h' → IsSound config h → IsSound config h'
  step-IsSound _ _ (register h id topics now on new) s = run_register-IsSound id topics now h new s
  step-IsSound _ _ (unregister h id c on found) s = run_unregister-IsSound id c h found s
  step-IsSound _ _ (broadcast h message topics on) s =
      broadcast_to_topics-IsSound message topics h s
  step-IsSound _ _ (read h id c now msg found reads) s =
      read_message-IsSound id c now msg h found reads s
  step-IsSound _ _ (write h id c found) s = write-IsSound id c h found s
  step-IsSound _ _ (halt h on) s = stop-IsSound h s

  -- In every state that the hub reaches, a client is in the hub just while its channel is open, and
  -- no buffer holds more than its size; while the hub runs, nothing has panicked and the metric of
  -- the current connections is the number of clients.
  pub Reachable-IsSound : (h : WsHub) → Reachable config h → IsSound config h
  unfolding get_client_count registered_in
  Reachable-IsSound _ initial = record {
    clients_sound = tt;
    counted = λ on. refl;
    no_panic = λ on. refl;
  }
  Reachable-IsSound _ (next h h' before step) = step-IsSound h h' step (Reachable-IsSound h before)
