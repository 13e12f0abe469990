-- ===== src/Realtime/Hub/Steps.antt =====
-- internal/realtime/websocket.go: the runs of the hub, and what holds in each of its states.
use syara_ai.Base.{
  ℕ, ◌+◌, ◌≤◌, ◌≡◌, refl, Bool, true, false, ◌&&◌, Bool-cases, inl, inr, none, some, List, [], ◌∷◌,
  ltb→lt, if◌then◌else◌, length, length-append, All, Text, Dict, lookup, insert, nat_eq, ◌==◌,
  arith,
}
use syara_ai.Realtime.Hub.{
  WsConfig, WsClient, WsHub, ClientMessage, new_ws_hub, has_room, push, deliver, hits_closed,
  broadcast_to_topics, run_register, run_unregister, stop_clients, stop, read_message, taken,
  registered_in, get_client_count,
}

abbrev one_if : Bool → ℕ
one_if b = if b then 1 else 0

module _ (config : WsConfig) where
  -- One step: of `run`, of the bus's handlers, of a client's pumps, or `Stop`.
  pub data Step : WsHub → WsHub → Type 0 where
    register :
        (h : WsHub) (id : ℕ) (topics : Text) (now : ℕ)
        → h.running ≡ true
        → lookup id h.clients ≡ none
        → Step h (run_register config id topics now h)
    unregister :
        (h : WsHub) (id : ℕ) (c : WsClient)
        → h.running ≡ true
        → lookup id h.clients ≡ some c
        → Step h (run_unregister config id c h)
    broadcast :
        (h : WsHub) (message : Text) (topics : List Text)
        → h.running ≡ true
        → Step h (broadcast_to_topics config message topics h)
    read :
        (h : WsHub) (id : ℕ) (c : WsClient) (now : ℕ) (msg : ClientMessage)
        → lookup id h.clients ≡ some c
        → c.reading ≡ true
        → Step h (read_message config id c now msg h)
    write :
        (h : WsHub) (id : ℕ) (c : WsClient)
        → lookup id h.clients ≡ some c
        → Step h (record h { clients = insert id (taken config c) h.clients })
    halt : (h : WsHub) → h.running ≡ true → Step h (stop config h)

  pub data Reachable : WsHub → Type 0 where
    initial : Reachable new_ws_hub
    next : (h h' : WsHub) → Reachable h → Step h h' → Reachable h'

  -- A client is in the hub just while its channel is open; while the hub runs it reads just as
  -- long; and its buffer holds no more than its size.
  abbrev pub IsSoundClient : Bool → ℕ × WsClient → Type 0
  IsSoundClient running p =
      (p.1.registered ≡ p.1.is_open)
      × (running ≡ true → p.1.reading ≡ p.1.registered)
      × (length p.1.send ≤ config.send_buffer_size)

  pub record IsSound (h : WsHub) : Type 0 where
    pub clients_sound : All (IsSoundClient h.running) h.clients
    pub counted : h.running ≡ true → h.connections_current ≡ get_client_count h
    pub no_panic : h.running ≡ true → h.panicked ≡ false

  pub registered_in-insert_new :
      (id : ℕ) (c : WsClient) (cs : Dict ℕ WsClient)
      → lookup id cs ≡ none
      → registered_in (insert id c cs) ≡ registered_in cs + one_if c.registered
  unfolding registered_in insert lookup
  registered_in-insert_new id c [] e = omega arith
  registered_in-insert_new id c ((j, d) ∷ cs) e = elim (Bool-cases (j == id)) [
    | inl same ↦ absurd (ground arith)
    | inr other ↦ rw other (omega (arith, registered_in-insert_new id c cs (ground arith)))
  ]

  pub registered_in-insert_old :
      (id : ℕ) (c d : WsClient) (cs : Dict ℕ WsClient)
      → lookup id cs ≡ some c
      → registered_in (insert id d cs) + one_if c.registered
        ≡ registered_in cs + one_if d.registered
  unfolding registered_in insert lookup
  registered_in-insert_old id c d [] e = absurd cc
  registered_in-insert_old id c d ((j, b) ∷ cs) e = elim (Bool-cases (j == id)) [
    | inl same ↦ let e' : b ≡ c = ground arith in rw (same, e') (omega arith)
    | inr other ↦ rw other (omega (arith, registered_in-insert_old id c d cs (ground arith)))
  ]

  pub registered_in-deliver :
      (wanted : WsClient → Bool) (message : Text) (cs : Dict ℕ WsClient)
      → registered_in (deliver config wanted message cs) ≡ registered_in cs
  unfolding registered_in deliver
  registered_in-deliver wanted message [] = refl
  registered_in-deliver wanted message ((id, c) ∷ cs) =
      grind (arith, registered_in-deliver wanted message cs)

  pub push-IsSoundClient :
      (running : Bool) (message : Text) (id : ℕ) (c : WsClient)
      → IsSoundClient running (id, c)
      → IsSoundClient running (id, push config message c)
  push-IsSoundClient running message id c (o, r, l) = elim (Bool-cases (has_room config c)) [
    | inl room ↦ rw room (
      o,
      r,
      omega (
        arith,
        ltb→lt (length c.send) config.send_buffer_size room,
        length-append c.send (message ∷ []),
      ),
    )
    | inr full ↦ rw full (o, r, l)
  ]

  pub if-IsSoundClient :
      (running b : Bool) (id : ℕ) (c d : WsClient)
      → IsSoundClient running (id, c)
      → IsSoundClient running (id, d)
      → IsSoundClient running (id, (if b then c else d))
  if-IsSoundClient running true id c d h k = h
  if-IsSoundClient running false id c d h k = k

  pub deliver-All :
      (running : Bool) (wanted : WsClient → Bool) (message : Text) (cs : Dict ℕ WsClient)
      → All (IsSoundClient running) cs
      → All (IsSoundClient running) (deliver config wanted message cs)
  unfolding deliver
  deliver-All running wanted message [] h = tt
  deliver-All running wanted message ((id, c) ∷ cs) (s, h) = (
    if-IsSoundClient running (c.registered && wanted c) id (push config message c) c
        (push-IsSoundClient running message id c s) s,
    deliver-All running wanted message cs h,
  )

  pub hits_closed-All :
      (running : Bool) (wanted : WsClient → Bool) (cs : Dict ℕ WsClient)
      → All (IsSoundClient running) cs
      → hits_closed config wanted cs ≡ false
  unfolding hits_closed
  hits_closed-All running wanted [] h = refl
  hits_closed-All running wanted ((id, c) ∷ cs) (s, h) =
      ground (arith, s.0, hits_closed-All running wanted cs h)

  pub stop_clients-All :
      (running : Bool) (cs : Dict ℕ WsClient)
      → All (IsSoundClient running) cs
      → All (IsSoundClient false) (stop_clients config cs)
  unfolding stop_clients
  stop_clients-All running [] h = tt
  stop_clients-All running ((id, c) ∷ cs) (s, h) = (
    if-IsSoundClient false c.registered id (record c { registered = false; is_open = false }) c
        (refl, (λ e. absurd cc), s.2) (s.0, (λ e. absurd cc), s.2),
    stop_clients-All running cs h,
  )
