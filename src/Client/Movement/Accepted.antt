-- ===== src/Client/Movement/Accepted.antt =====
-- What plugin/src/movement_sync_bridge.c sends, service/src/player_state_relay_policy.c accepts.
use f4mp.Base.{
  ◌+◌, ◌^◌, ◌≤◌, ◌<◌, ◌≡◌, inl, inr, refl, ap, ◌∙◌, Option, none, some, List, [], ◌∷◌, arith,
  length, Option-cases,
}
use f4mp.Messages.Player.{MsgPlayerState}
use f4mp.Service.Floats.{Floats}
use f4mp.Service.State.{PlayerStateRelayStats}
use f4mp.Service.Relay.{psr_evaluate, accept}
use f4mp.Service.Relay.Order.{accepted}
use f4mp.Client.Movement.{
  LocalPlayerObservedState, MovementSync, msb_build_player_state_if_changed, emit, decide,
}

-- A message, if there is one, before others.
abbrev pub cons_some : {A : Type 0} → Option A → List A → List A
cons_some none xs = xs
cons_some (some x) xs = x ∷ xs

-- The messages that one capture after the other leads to.
unfoldable pub built_states :
    Floats → List (Option LocalPlayerObservedState) → MovementSync → List MsgPlayerState
built_states F [] m = []
built_states F (cap ∷ caps) m =
    let (msg?, m') = msb_build_player_state_if_changed F cap m in
    cons_some msg? (built_states F caps m')

module _ (F : Floats) where
  -- A capture that sends nothing keeps the sequence number, and the clock moves on by at most one.
  built-none :
      (cap : Option LocalPlayerObservedState) (m : MovementSync)
      → m.observed_tick + 1 < 2 ^ 32
      → (msb_build_player_state_if_changed F cap m).0 ≡ none
      → ((msb_build_player_state_if_changed F cap m).1.state_sequence ≡ m.state_sequence)
        × (m.observed_tick ≤ (msb_build_player_state_if_changed F cap m).1.observed_tick)
        × ((msb_build_player_state_if_changed F cap m).1.observed_tick ≤ m.observed_tick + 1)
  unfolding msb_build_player_state_if_changed decide emit
  built-none cap m room e = ground arith

  -- One that sends a message gives it the next sequence number and the next tick.
  built-some :
      (cap : Option LocalPlayerObservedState) (m : MovementSync) (msg : MsgPlayerState)
      → m.observed_tick + 1 < 2 ^ 32
      → m.state_sequence + 1 < 2 ^ 32
      → (msb_build_player_state_if_changed F cap m).0 ≡ some msg
      → (msg.state_sequence ≡ m.state_sequence + 1)
        × (msg.observed_tick ≡ m.observed_tick + 1)
        × ((msb_build_player_state_if_changed F cap m).1.state_sequence ≡ m.state_sequence + 1)
        × ((msb_build_player_state_if_changed F cap m).1.observed_tick ≡ m.observed_tick + 1)
  unfolding msb_build_player_state_if_changed decide emit
  built-some cap m msg room more e = ground arith

-- A state that is ahead of what was accepted is accepted.
ahead-accept :
    (s : PlayerStateRelayStats) (msg : MsgPlayerState)
    → s.last_sequence < msg.state_sequence
    → s.last_observed_tick < msg.observed_tick
    → ((psr_evaluate s msg).0 ≡ accept)
      × ((psr_evaluate s msg).1.last_sequence ≡ msg.state_sequence)
      × ((psr_evaluate s msg).1.last_observed_tick ≡ msg.observed_tick)
unfolding psr_evaluate
ahead-accept s msg p q = ground arith

accepted-nil : (s : PlayerStateRelayStats) → accepted s [] ≡ []
unfolding accepted
accepted-nil s = refl

accepted-next :
    (s : PlayerStateRelayStats) (msg : MsgPlayerState) (msgs : List MsgPlayerState)
    → (psr_evaluate s msg).0 ≡ accept
    → accepted s (msg ∷ msgs) ≡ msg ∷ accepted (psr_evaluate s msg).1 msgs
unfolding accepted
accepted-next s msg msgs e = ground arith

module _ (F : Floats) where
  -- Whatever is captured and however often, the relay policy of the service accepts every state that the
  -- bridge sends, in the order in which they were sent, if its marks are not ahead of the bridge's
  -- counters at first and the counters have room for all captures.
  pub accepted-built :
      (caps : List (Option LocalPlayerObservedState)) (m : MovementSync) (s : PlayerStateRelayStats)
      → m.state_sequence + length caps < 2 ^ 32
      → m.observed_tick + length caps < 2 ^ 32
      → s.last_sequence ≤ m.state_sequence
      → s.last_observed_tick ≤ m.observed_tick
      → accepted s (built_states F caps m) ≡ built_states F caps m
  unfolding built_states
  accepted-built [] m s a b c d = accepted-nil s
  accepted-built (cap ∷ caps) m s a b c d =
      let r = msb_build_player_state_if_changed F cap m in
      elim (Option-cases r.0) [
        | inl e ↦
            let (same, up, bound) = built-none F cap m (omega arith) e in
            rw e (
              accepted-built caps r.1 s (omega (arith, same)) (omega (arith, bound))
                (omega (arith, same)) (omega (arith, up)))
        | inr (msg, e) ↦
            let (seq, tick, seq', tick') = built-some F cap m msg (omega arith) (omega arith) e in
            let (ok, p, q) = ahead-accept s msg (omega (arith, seq)) (omega (arith, tick)) in
            rw e (
              accepted-next s msg (built_states F caps r.1) ok
              ∙ ap (◌∷◌ msg) (
                  accepted-built caps r.1 (psr_evaluate s msg).1 (omega (arith, seq'))
                    (omega (arith, tick')) (omega (arith, p, seq, seq'))
                    (omega (arith, q, tick, tick'))))
      ]
