-- ===== src/Client/Movement.antt =====
-- plugin/src/movement_sync_bridge.c: which observed states of the local player are sent, and when. What
-- lpo_capture returned is an argument.
pub mod Accepted
pub mod Packet
use f4mp.Base.{
  ℕ, ◌+◌, ◌-◌, ◌%◌, ◌^◌, Bool, true, false, not, ◌&&◌, ◌||◌, Option, none, some, List, [], ◌∷◌,
  ◌++◌, ◌==◌, ltb, if◌then◌else◌,
}
use f4mp.Messages.Types.{Vec3f, Rot3f}
use f4mp.Messages.Player.{MsgPlayerState}
use f4mp.Codec.Player.{encode_msg_player_state}
use f4mp.Wire.Writer.{pw_init, pw_bytes_written, le_bytes}
use f4mp.Codec.Header.{encode_packet_header, encode_message_header}
use f4mp.Messages.Header.{PacketHeader, MessageHeader}
use f4mp.Service.Floats.{Floats}
use f4mp.Service.Zero.{zero_vec, zero_rot, zero_player_state}
use f4mp.Service.Transport.{overwrite, f4mp_magic, f4mp_version}
use f4mp.Client.Scene.Driver.{next32}

pub record LocalPlayerObservedState : Type 0 where
  pub valid : Bool
  pub player_id : ℕ
  pub position : Vec3f
  pub rotation : Rot3f
  pub velocity : Vec3f
  pub stance : ℕ
  pub anim_state : ℕ
  pub equipped_form_id : ℕ

abbrev pub zero_observed : LocalPlayerObservedState
zero_observed = record {
  valid = false;
  player_id = 0;
  position = zero_vec;
  rotation = zero_rot;
  velocity = zero_vec;
  stance = 0;
  anim_state = 0;
  equipped_form_id = 0;
}

pub record MovementSyncBridgeConfig : Type 0 where
  pub position_epsilon : ℕ
  pub rotation_epsilon : ℕ
  pub send_velocity : Bool
  pub force_resend_ticks : ℕ
  pub min_send_interval_ticks : ℕ

-- The statics; `last` is `none` while g_have_last is false.
pub record MovementSync : Type 0 where
  pub cfg : MovementSyncBridgeConfig
  pub last : Option LocalPlayerObservedState
  pub quiet_ticks : ℕ
  pub state_sequence : ℕ
  pub observed_tick : ℕ
  pub last_emit_tick : ℕ

-- `0.02f` and `1.0f`
abbrev default_sync_config : MovementSyncBridgeConfig
default_sync_config = record {
  position_epsilon = 0x3ca3_d70a;
  rotation_epsilon = 0x3f80_0000;
  send_velocity = true;
  force_resend_ticks = 20;
  min_send_interval_ticks = 2;
}

unfoldable pub msb_init : Option MovementSyncBridgeConfig → MovementSync
msb_init cfg = record {
  cfg = elim cfg [ none ↦ default_sync_config | some given ↦ given ];
  last = none;
  quiet_ticks = 0;
  state_sequence = 0;
  observed_tick = 0;
  last_emit_tick = 0;
}

-- `fabsf`: the sign bit is cleared.
abbrev fabsf : ℕ → ℕ
fabsf v = v % 2 ^ 31

-- The message of an observed state, and what is remembered of it.
unfoldable pub emit : LocalPlayerObservedState → MovementSync → Option MsgPlayerState × MovementSync
emit cur m = (
  some (record zero_player_state {
    player_id = cur.player_id;
    position = cur.position;
    rotation = cur.rotation;
    velocity = if m.cfg.send_velocity then cur.velocity else zero_vec;
    stance = cur.stance;
    anim_state = cur.anim_state;
    equipped_form_id = cur.equipped_form_id;
    state_sequence = next32 m.state_sequence;
    observed_tick = m.observed_tick;
  }),
  record m {
    state_sequence = next32 m.state_sequence;
    last = some cur;
    quiet_ticks = 0;
    last_emit_tick = m.observed_tick;
  },
)

module _ (F : Floats) where
  open F use {add, sub, mul, lt}

  unfoldable pub pos_dist_sq : Vec3f → Vec3f → ℕ
  pos_dist_sq a b =
      add (add (mul (sub a.x b.x) (sub a.x b.x)) (mul (sub a.y b.y) (sub a.y b.y)))
        (mul (sub a.z b.z) (sub a.z b.z))

  unfoldable pub has_changed :
      MovementSyncBridgeConfig → LocalPlayerObservedState → LocalPlayerObservedState → Bool
  has_changed cfg cur last =
      lt (mul cfg.position_epsilon cfg.position_epsilon) (pos_dist_sq cur.position last.position)
      || turned cur.rotation.yaw last.rotation.yaw
      || turned cur.rotation.pitch last.rotation.pitch
      || turned cur.rotation.roll last.rotation.roll
      || not (cur.stance == last.stance)
      || not (cur.anim_state == last.anim_state)
      || not (cur.equipped_form_id == last.equipped_form_id)
    where
      turned : ℕ → ℕ → Bool
      turned a b = lt cfg.rotation_epsilon (fabsf (sub a b))

  -- Where a state was sent before: too soon after the last one, unchanged for a short time, or sent.
  unfoldable pub decide :
      LocalPlayerObservedState
      → LocalPlayerObservedState
      → MovementSync
      → Option MsgPlayerState × MovementSync
  decide cur last m =
      if has_changed cfg cur last
      then if ltb 0 cfg.min_send_interval_ticks
          && not (last_emit_tick == 0)
          && ltb ((observed_tick + (2 ^ 32 - last_emit_tick)) % 2 ^ 32) cfg.min_send_interval_ticks
        then (none, m)
        else emit cur m
      else if cfg.force_resend_ticks == 0
      then (none, m)
      else if ltb (next32 quiet_ticks) cfg.force_resend_ticks
      then (none, record m { quiet_ticks = next32 quiet_ticks })
      else emit cur (record m { quiet_ticks = next32 quiet_ticks })
    where
      open m use {cfg, last_emit_tick, observed_tick, quiet_ticks}

  unfoldable pub msb_build_player_state_if_changed :
      Option LocalPlayerObservedState → MovementSync → Option MsgPlayerState × MovementSync
  msb_build_player_state_if_changed none m = (none, m)
  msb_build_player_state_if_changed (some cur) m =
      let ticked = record m { observed_tick = next32 m.observed_tick } in
      elim m.last [ none ↦ emit cur ticked | some last ↦ decide cur last ticked ]

abbrev pub player_packet_header : ℕ → ℕ → PacketHeader
player_packet_header session_id sequence = record {
  magic = f4mp_magic;
  version = f4mp_version;
  flags = 0;
  session_id = session_id;
  sequence = sequence;
  ack = 0;
  ack_bits = 0;
  message_count = 1;
  reserved = 0 ∷ 0 ∷ 0 ∷ [];
}

-- MSG_PLAYER_STATE, with MSGF_RELIABLE | MSGF_CH1_WORLD.
abbrev pub player_message_header : MessageHeader
player_message_header = record { type = 0x0102; flags = 0x0101; length = 0 }

-- The bytes of a MessageHeader in memory.
abbrev header_in_memory : MessageHeader → List ℕ
header_in_memory mh = le_bytes 2 mh.type ++ (le_bytes 2 mh.flags ++ le_bytes 2 mh.length)

-- The buffer up to the size that is returned; none of it where that is 0. The whole second header is
-- written again once the length is known.
unfoldable pub msb_encode_player_state_packet : ℕ → ℕ → ℕ → MsgPlayerState → List ℕ
msb_encode_player_state_packet capacity session_id sequence msg =
    let (ok₁, w₁) =
      encode_packet_header (player_packet_header session_id sequence) (pw_init capacity) in
    let (ok₂, w₂) = encode_message_header player_message_header w₁ in
    let (ok₃, w₃) = encode_msg_player_state msg w₂ in
    let mh : MessageHeader = record player_message_header {
      length = (pw_bytes_written w₃ - pw_bytes_written w₂) % 2 ^ 16;
    } in
    if ltb capacity 94
    then []
    else if not ok₁
    then []
    else if not ok₂
    then []
    else if not ok₃
    then []
    else overwrite (pw_bytes_written w₁) (header_in_memory mh) w₃.buffer
