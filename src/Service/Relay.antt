-- ===== src/Service/Relay.antt =====
-- service/src/player_state_relay_policy.c.
pub mod Order
use f4mp.Base.{ℕ, ◌+◌, ◌%◌, ◌^◌, Bool, true, false, not, ◌&&◌, ◌==◌, ltb, leb, if◌then◌else◌}
use f4mp.Messages.Player.{MsgPlayerState}
use f4mp.Service.State.{PlayerStateRelayStats}
use f4mp.Service.Zero.{zero_relay_stats}

pub data PlayerStateRelayDecision : Type 0 where
  reject accept : PlayerStateRelayDecision

unfoldable pub psr_init : PlayerStateRelayStats
psr_init = zero_relay_stats

-- The two tests under `if (msg->state_sequence != 0)`.
unfoldable pub is_stale : PlayerStateRelayStats → MsgPlayerState → Bool
is_stale s msg =
    if msg.state_sequence == 0
    then false
    else if not (s.last_sequence == 0) && ltb msg.state_sequence s.last_sequence
    then true
    else (msg.state_sequence == s.last_sequence
        && not (msg.observed_tick == 0)
        && not (s.last_observed_tick == 0)
        && leb msg.observed_tick s.last_observed_tick)

unfoldable pub is_regressive : PlayerStateRelayStats → MsgPlayerState → Bool
is_regressive s msg =
    not (msg.observed_tick == 0)
    && not (s.last_observed_tick == 0)
    && ltb msg.observed_tick s.last_observed_tick

unfoldable pub psr_evaluate :
    PlayerStateRelayStats → MsgPlayerState → PlayerStateRelayDecision × PlayerStateRelayStats
unfolding is_stale is_regressive
psr_evaluate s msg =
    if is_stale s msg
    then (reject, record s { rejected_stale_count = (s.rejected_stale_count + 1) % 2 ^ 32 })
    else if is_regressive s msg
    then (
      reject,
      record s { rejected_regressive_tick_count = (s.rejected_regressive_tick_count + 1) % 2 ^ 32 },
    )
    else (
      accept,
      record s {
        accepted_count = (s.accepted_count + 1) % 2 ^ 32;
        last_sequence = if msg.state_sequence == 0 then s.last_sequence else msg.state_sequence;
        last_observed_tick =
            if msg.observed_tick == 0 then s.last_observed_tick else msg.observed_tick;
      },
    )
