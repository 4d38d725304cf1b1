-- ===== src/Client/Bridge/Ticks.antt =====
-- The player states of a live client, tick after tick: plugin/src/movement_live_client_bridge.c with
-- movement_sync_bridge.c and local_player_observer.c, and service/src/player_state_relay_policy.c.
use f4mp.Base.{
  ℕ, zero, suc, ◌+◌, ◌^◌, ◌≤◌, ◌<◌, ◌≡◌, refl, sym, ap, ◌∙◌, subst, Bool, inl, inr, Option, none,
  some, List, [], ◌∷◌, arith, length, if◌then◌else◌, Option-cases, Bool-cases,
}
use f4mp.Messages.Player.{MsgPlayerState}
use f4mp.Service.Floats.{Floats}
use f4mp.Service.State.{PlayerStateRelayStats}
use f4mp.Service.Relay.Order.{accepted}
use f4mp.Client.Link.{Udp, ptc_poll_once}
use f4mp.Client.Movement.{LocalPlayerObservedState, MovementSync, msb_build_player_state_if_changed}
use f4mp.Client.Movement.Accepted.{built_states, cons_some, accepted-built}
use f4mp.Client.Observer.{lpo_capture}
use f4mp.Client.Bridge.{
  LiveClient, heartbeat, build_state, send_state, begin_tick, mlcb_step_remote_backend, mlcb_tick,
  join,
}

module _ {Net User : Type 0} (udp : Udp Net) (F : Floats)
    (capture : User → Option LocalPlayerObservedState × User) where
  -- The player state that a tick builds, which it hands to the socket.
  unfoldable pub tick_state : LiveClient Net User → Option MsgPlayerState
  tick_state c =
      let (begun, c') = begin_tick udp F capture c in
      elim begun [ none ↦ none | some applied ↦ (build_state udp F capture c').0 ]

  unfoldable pub tick_states : ℕ → LiveClient Net User → List MsgPlayerState
  tick_states zero c = []
  tick_states (suc n) c = cons_some (tick_state c) (tick_states n (mlcb_tick udp F capture c).1)

  -- What msb_build_player_state_if_changed captures, and in a tick.
  unfoldable captured : LiveClient Net User → Option LocalPlayerObservedState
  captured c =
      let (cur, _) = lpo_capture capture c.observer in if c.bridge.joined then cur else none

  unfoldable tick_capture : LiveClient Net User → Option LocalPlayerObservedState
  tick_capture c =
      let (begun, c') = begin_tick udp F capture c in
      elim begun [ none ↦ none | some applied ↦ captured c' ]

  abbrev build_of :
      Option LocalPlayerObservedState → MovementSync → Option MsgPlayerState × MovementSync
  build_of cap m = msb_build_player_state_if_changed F cap m

  join-sync : (c : LiveClient Net User) → (join c).sync ≡ c.sync
  unfolding join
  join-sync c = ground arith

  heartbeat-sync : (c : LiveClient Net User) → (heartbeat udp c).1.sync ≡ c.sync
  unfolding heartbeat
  heartbeat-sync c = ground arith

  step-sync : (c : LiveClient Net User) → (mlcb_step_remote_backend F c).sync ≡ c.sync
  unfolding mlcb_step_remote_backend
  step-sync c = ground arith

  begin_tick-sync : (c : LiveClient Net User) → (begin_tick udp F capture c).1.sync ≡ c.sync
  unfolding begin_tick
  begin_tick-sync c =
      let (polled, link') = ptc_poll_once udp F 5 c.link in
      elim (Option-cases polled) [
        | inl e ↦ rw (e, begin_tick) refl
        | inr (applied, e) ↦
            rw (e, begin_tick) (heartbeat-sync _ ∙ join-sync (record c { link = link' }))
      ]

  build_state-built :
      (c : LiveClient Net User)
      → ((build_state udp F capture c).0 ≡ (build_of (captured c) c.sync).0)
        × ((build_state udp F capture c).1.sync ≡ (build_of (captured c) c.sync).1)
  unfolding build_state captured msb_build_player_state_if_changed
  build_state-built c = elim (Bool-cases c.bridge.joined) [
    | inl e ↦ simp e (refl, refl)
    | inr e ↦ simp e (refl, refl)
  ]

  send_state-sync :
      (c : LiveClient Net User)
      → (send_state udp F capture c).1.sync ≡ (build_state udp F capture c).1.sync
  unfolding send_state
  send_state-sync c = ground arith

  -- After the poll and the heartbeat, a tick changes the movement bridge only as the build does.
  after_build-sync :
      (c : LiveClient Net User) (applied : Bool)
      → (begin_tick udp F capture c).0 ≡ some applied
      → (mlcb_tick udp F capture c).1.sync
        ≡ (build_state udp F capture (begin_tick udp F capture c).1).1.sync
  unfolding mlcb_tick
  after_build-sync c applied e =
      let c₁ = (begin_tick udp F capture c).1 in
      elim (Option-cases (send_state udp F capture c₁).0) [
        | inl e' ↦ rw (e, e', mlcb_tick) (send_state-sync c₁)
        | inr (sent, e') ↦
            rw (e, e', mlcb_tick) (step-sync (send_state udp F capture c₁).1 ∙ send_state-sync c₁)
      ]

  mlcb_tick-built :
      (c : LiveClient Net User)
      → (tick_state c ≡ (build_of (tick_capture c) c.sync).0)
        × ((mlcb_tick udp F capture c).1.sync ≡ (build_of (tick_capture c) c.sync).1)
  unfolding tick_state tick_capture mlcb_tick msb_build_player_state_if_changed
  mlcb_tick-built c =
      let begun = begin_tick udp F capture c in
      let kept = begin_tick-sync c in
      elim (Option-cases begun.0) [
        | inl e ↦ rw (e, tick_state, tick_capture, mlcb_tick) (refl, kept)
        | inr (applied, e) ↦
            let (msg, m) = build_state-built begun.1 in
            (
              rw (e, tick_state, tick_capture)
                  (msg ∙ ap (λ m. (build_of (captured begun.1) m).0) kept),
              after_build-sync c applied e
                  ∙ rw (e, tick_capture) (m ∙ ap (λ m. (build_of (captured begun.1) m).1) kept),
            )
      ]

  -- The captures of some ticks.
  unfoldable tick_captures : ℕ → LiveClient Net User → List (Option LocalPlayerObservedState)
  tick_captures zero c = []
  tick_captures (suc n) c = tick_capture c ∷ tick_captures n (mlcb_tick udp F capture c).1

  length-tick_captures : (n : ℕ) (c : LiveClient Net User) → length (tick_captures n c) ≡ n
  unfolding tick_captures
  length-tick_captures zero c = refl
  length-tick_captures (suc n) c = ap suc (length-tick_captures n (mlcb_tick udp F capture c).1)

  tick_states-built :
      (n : ℕ) (c : LiveClient Net User)
      → tick_states n c ≡ built_states F (tick_captures n c) c.sync
  unfolding tick_states tick_captures built_states
  tick_states-built zero c = refl
  tick_states-built (suc n) c =
      let c' = (mlcb_tick udp F capture c).1 in
      let (msg, m) = mlcb_tick-built c in
      let rest = tick_states-built n c' ∙ ap (built_states F (tick_captures n c')) m in
      ap (λ o. cons_some o (tick_states n c')) msg
      ∙ ap (cons_some (build_of (tick_capture c) c.sync).0) rest

  -- Whatever the network delivers and whatever is captured, the relay policy of the service accepts
  -- every player state that the ticks of a live client build_state, in their order, if its marks are not ahead
  -- of the client's counters at first and the counters have room for all ticks.
  pub accepted-mlcb_tick :
      (n : ℕ) (c : LiveClient Net User) (s : PlayerStateRelayStats)
      → c.sync.state_sequence + n < 2 ^ 32
      → c.sync.observed_tick + n < 2 ^ 32
      → s.last_sequence ≤ c.sync.state_sequence
      → s.last_observed_tick ≤ c.sync.observed_tick
      → accepted s (tick_states n c) ≡ tick_states n c
  accepted-mlcb_tick n c s room_seq room_tick seq tick =
      let count = length-tick_captures n c in
      subst (λ msgs. accepted s msgs ≡ msgs) (sym (tick_states-built n c))
        (accepted-built F (tick_captures n c) c.sync s (omega (arith, count)) (omega (arith, count))
          seq tick)
