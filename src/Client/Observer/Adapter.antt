-- ===== src/Client/Observer/Adapter.antt =====
-- plugin/src/commonlibf4_player_live_adapter.c: what the player hook reports, checked and counted. Its
-- log file is left out.
use f4mp.Base.{
  ℕ, ◌/◌, ◌%◌, ◌^◌, Bool, true, not, ◌&&◌, Option, none, some, ◌==◌, ltb, if◌then◌else◌,
}
use f4mp.Messages.Types.{Vec3f, Rot3f}
use f4mp.Client.Scene.Driver.{next32}
use f4mp.Client.Movement.{LocalPlayerObservedState}

pub record PlayerHostEvent : Type 0 where
  pub player_id : ℕ
  pub position : Vec3f
  pub rotation : Rot3f
  pub velocity : Vec3f
  pub stance : ℕ
  pub anim_state : ℕ
  pub equipped_form_id : ℕ

pub data RejectReason : Type 0 where
  reject_none reject_null_args reject_null_out reject_missing_player_id : RejectReason
  reject_invalid_position reject_invalid_rotation : RejectReason
  reject_invalid_velocity reject_invalid_stance : RejectReason

pub record LiveSample : Type 0 where
  pub state : LocalPlayerObservedState
  pub observed_tick : ℕ
  pub accepted_sequence : ℕ
  pub source_kind : ℕ
  pub used_default_player_id : Bool

-- `last_sample` is `none` while has_last_sample is false.
pub record LiveAdapterStats : Type 0 where
  pub fallback_player_id : ℕ
  pub normalize_attempt_count : ℕ
  pub accept_count : ℕ
  pub reject_count : ℕ
  pub last_observed_tick : ℕ
  pub last_accepted_sequence : ℕ
  pub last_reject_reason : RejectReason
  pub last_sample : Option LiveSample

-- `isfinite`: the exponent is not all ones.
abbrev pub isfinite : ℕ → Bool
isfinite v = not ((v / 2 ^ 23) % 256 == 255)

unfoldable pub vec3_finite : Vec3f → Bool
vec3_finite v = isfinite v.x && isfinite v.y && isfinite v.z

unfoldable pub rot3_finite : Rot3f → Bool
rot3_finite r = isfinite r.pitch && isfinite r.yaw && isfinite r.roll

unfoldable pub clf4_pla_reset : ℕ → LiveAdapterStats
clf4_pla_reset fallback_player_id = record {
  fallback_player_id = fallback_player_id;
  normalize_attempt_count = 0;
  accept_count = 0;
  reject_count = 0;
  last_observed_tick = 0;
  last_accepted_sequence = 0;
  last_reject_reason = reject_none;
  last_sample = none;
}

unfoldable pub resolved_player_id : ℕ → PlayerHostEvent → ℕ
resolved_player_id fallback ev = if ev.player_id == 0 then fallback else ev.player_id

-- The state of the sample that is made of an event.
unfoldable pub observed_state : ℕ → PlayerHostEvent → LocalPlayerObservedState
observed_state fallback ev = record {
  valid = true;
  player_id = resolved_player_id fallback ev;
  position = ev.position;
  rotation = ev.rotation;
  velocity = ev.velocity;
  stance = ev.stance;
  anim_state = ev.anim_state;
  equipped_form_id = ev.equipped_form_id;
}

-- `g_stats.reject_count++; g_stats.last_reject_reason = ...; return false;`
unfoldable pub reject_event : RejectReason → LiveAdapterStats → Option LiveSample × LiveAdapterStats
reject_event reason s =
    (none, record s { reject_count = next32 s.reject_count; last_reject_reason = reason })

unfoldable pub accept_event :
    PlayerHostEvent → LiveAdapterStats → Option LiveSample × LiveAdapterStats
accept_event ev s =
    let sample : LiveSample = record {
      state = observed_state s.fallback_player_id ev;
      observed_tick = next32 s.last_observed_tick;
      accepted_sequence = next32 s.accept_count;
      source_kind = 1;
      used_default_player_id = ev.player_id == 0;
    } in
    (
      some sample,
      record s {
        accept_count = next32 s.accept_count;
        last_observed_tick = next32 s.last_observed_tick;
        last_accepted_sequence = next32 s.accept_count;
        last_reject_reason = reject_none;
        last_sample = some sample;
      },
    )

-- The pointers are not null, as where the provider calls it.
unfoldable pub clf4_pla_normalize :
    PlayerHostEvent → LiveAdapterStats → Option LiveSample × LiveAdapterStats
clf4_pla_normalize ev stats =
    let s : LiveAdapterStats = record stats {
      normalize_attempt_count = next32 stats.normalize_attempt_count;
    } in
    if resolved_player_id s.fallback_player_id ev == 0
    then reject_event reject_missing_player_id s
    else if not (vec3_finite ev.position)
    then reject_event reject_invalid_position s
    else if not (rot3_finite ev.rotation)
    then reject_event reject_invalid_rotation s
    else if not (vec3_finite ev.velocity)
    then reject_event reject_invalid_velocity s
    else if ltb 7 ev.stance
    then reject_event reject_invalid_stance s
    else accept_event ev s
