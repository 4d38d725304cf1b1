-- ===== src/Service/Relay/Order.antt =====
-- What the relay policy lets through, over any sequence of player states.
use mathlib.Core.Path.{subst₂}
use f4mp.Base.{
  ℕ, ◌+◌, ◌%◌, ◌^◌, ◌≤◌, ◌≡◌, ◌≢◌, ◌⊎◌, inl, inr, List, [], ◌∷◌, ◌==◌, if◌then◌else◌, arith,
}
use f4mp.Messages.Player.{MsgPlayerState}
use f4mp.Service.State.{PlayerStateRelayStats}
use f4mp.Service.Relay.{PlayerStateRelayDecision, reject, accept, psr_evaluate}

-- The states that are accepted, in order, when `msgs` arrive one after the other.
unfoldable pub accepted : PlayerStateRelayStats → List MsgPlayerState → List MsgPlayerState
accepted s [] = []
accepted s (m ∷ msgs) =
    let rest = accepted (psr_evaluate s m).1 msgs in
    elim (psr_evaluate s m).0 [ accept ↦ m ∷ rest | reject ↦ rest ]

-- A number that is unset, or not below the last one that was set.
abbrev pub NotBelow : ℕ → ℕ → Type 0
NotBelow last n = (n ≡ 0) ⊎ (last ≤ n)

abbrev pub next : ℕ → ℕ → ℕ
next last n = if n == 0 then last else n

-- Neither the sequence numbers nor the ticks that are set ever go back.
abbrev pub Rises : ℕ → ℕ → List MsgPlayerState → Type 0
Rises seq tick [] = Unit {0}
Rises seq tick (m ∷ msgs) =
    NotBelow seq m.state_sequence
    × NotBelow tick m.observed_tick
    × Rises (next seq m.state_sequence) (next tick m.observed_tick) msgs

-- One accepted state.
pub psr_evaluate-accept :
    (s : PlayerStateRelayStats) (m : MsgPlayerState)
    → (psr_evaluate s m).0 ≡ accept
    → NotBelow s.last_sequence m.state_sequence
      × NotBelow s.last_observed_tick m.observed_tick
      × ((psr_evaluate s m).1.last_sequence ≡ next s.last_sequence m.state_sequence)
      × ((psr_evaluate s m).1.last_observed_tick ≡ next s.last_observed_tick m.observed_tick)
unfolding psr_evaluate
psr_evaluate-accept s m e = ground arith

-- A rejected state moves neither mark.
pub psr_evaluate-reject :
    (s : PlayerStateRelayStats) (m : MsgPlayerState)
    → (psr_evaluate s m).0 ≡ reject
    → ((psr_evaluate s m).1.last_sequence ≡ s.last_sequence)
      × ((psr_evaluate s m).1.last_observed_tick ≡ s.last_observed_tick)
unfolding psr_evaluate
psr_evaluate-reject s m e = ground arith

decision_cases : (d : PlayerStateRelayDecision) → (d ≡ accept) ⊎ (d ≡ reject)
decision_cases d = ground arith

accepted-cons :
    (s : PlayerStateRelayStats) (m : MsgPlayerState) (msgs : List MsgPlayerState)
    → (((psr_evaluate s m).0 ≡ accept)
        × (accepted s (m ∷ msgs) ≡ m ∷ accepted (psr_evaluate s m).1 msgs))
      ⊎ (((psr_evaluate s m).0 ≡ reject)
          × (accepted s (m ∷ msgs) ≡ accepted (psr_evaluate s m).1 msgs))
unfolding accepted
accepted-cons s m msgs = ground (arith, decision_cases (psr_evaluate s m).0)

-- Whatever arrives, the states passed on never go back in sequence number or in tick.
pub accepted-Rises :
    (s : PlayerStateRelayStats) (msgs : List MsgPlayerState)
    → Rises s.last_sequence s.last_observed_tick (accepted s msgs)
accepted-Rises s [] = unfold accepted in tt
accepted-Rises s (m ∷ msgs) = elim (accepted-cons s m msgs) [
  | inl (e, a) ↦
      let (seq, tick, p, q) = psr_evaluate-accept s m e in
      rw a (
        seq,
        tick,
        subst₂ (λ u v. Rises u v (accepted (psr_evaluate s m).1 msgs)) p q
            (accepted-Rises (psr_evaluate s m).1 msgs),
      )
  | inr (e, a) ↦
      let (p, q) = psr_evaluate-reject s m e in
      rw a (
        subst₂ (λ u v. Rises u v (accepted (psr_evaluate s m).1 msgs)) p q
          (accepted-Rises (psr_evaluate s m).1 msgs))
]

-- A state with a sequence number and a tick is accepted once: its repetition is rejected as stale.
pub psr_evaluate_twice :
    (s : PlayerStateRelayStats) (m : MsgPlayerState)
    → m.state_sequence ≢ 0
    → m.observed_tick ≢ 0
    → (psr_evaluate s m).0 ≡ accept
    → let s' = (psr_evaluate s m).1 in
      psr_evaluate s' m
      ≡ (reject, record s' { rejected_stale_count = (s'.rejected_stale_count + 1) % 2 ^ 32 })
unfolding psr_evaluate
psr_evaluate_twice s m seq tick e = ground arith
