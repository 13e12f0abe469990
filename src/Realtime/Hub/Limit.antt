-- ===== src/Realtime/Hub/Limit.antt =====
-- internal/realtime/websocket.go: the rate limit of `readPump`.
use syara_ai.Base.{
  ℕ, ◌+◌, ◌-◌, ◌^◌, ◌<◌, ◌≤◌, ◌≡◌, Bool, false, List, [], ◌∷◌, length, All, ltb, lt→ltb, min,
  if◌then◌else◌, arith,
}
use syara_ai.Realtime.Hub.{WsConfig, WsClient, admit}

abbrev one_if : Bool → ℕ
one_if b = if b then 1 else 0

module _ (config : WsConfig) where
  -- How many of the messages that come at the times are handled.
  unfoldable pub handled : List ℕ → WsClient → ℕ
  handled [] c = 0
  handled (now ∷ times) c = let (ok, c') = admit config now c in one_if ok + handled times c'

  -- Within the second of the client's current window.
  abbrev pub IsWithin : WsClient → ℕ → Type 0
  IsWithin c now = now - c.last_message < 10 ^ 9

  handled-window :
      (times : List ℕ) (c : WsClient)
      → All (IsWithin c) times
      → handled times c ≡ min (config.max_messages_per_second - c.message_count) (length times)
  unfolding handled admit
  handled-window [] c h = omega arith
  handled-window (now ∷ times) c (soon, h) =
      let more : WsClient = record c { message_count = c.message_count + 1 } in
      let ih = handled-window times more h in
      let e = lt→ltb (now - c.last_message) (10 ^ 9) soon in rw (e, admit) (ground (arith, ih))

  -- A message that comes a second or more after the window's start is handled and opens a window;
  -- of the further messages in its second as many are handled as the limit says less one, or all
  -- where they are fewer.
  pub handled-min :
      (now : ℕ) (times : List ℕ) (c : WsClient)
      → 10 ^ 9 ≤ now - c.last_message
      → All (λ t. t - now < 10 ^ 9) times
      → handled (now ∷ times) c ≡ 1 + min (config.max_messages_per_second - 1) (length times)
  unfolding handled admit
  handled-min now times c late h =
      let fresh : WsClient = record c { message_count = 1; last_message = now } in
      let ih = handled-window times fresh h in
      let e : ltb (now - c.last_message) (10 ^ 9) ≡ false = ground arith in
      rw (e, admit) (ground (arith, ih))
