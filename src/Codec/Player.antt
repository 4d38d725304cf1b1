-- ===== src/Codec/Player.antt =====
-- shared/protocol/packet_codec.c: the messages of messages_player.h.
pub mod Agree
use f4mp.Base.{ℕ, List}
use f4mp.Codec.Rows.{write_rows, read_rows, read_at_most}
use f4mp.Wire.Writer.{
  W, ◌and_then◌, pw_write_bytes, pw_write_f32, pw_write_i16, pw_write_i8, pw_write_u16,
  pw_write_u32, pw_write_u8,
}
use f4mp.Wire.Reader.{
  R, ◌>>=◌, done, pr_read_bytes, pr_read_f32, pr_read_i16, pr_read_i8, pr_read_u16, pr_read_u32,
  pr_read_u8,
}
use f4mp.Codec.Vectors.{pw_write_rot3, pw_write_vec3, pr_read_rot3, pr_read_vec3}
use f4mp.Messages.Player.{
  MsgInputState, MsgPlayerState, MsgPlayerLeft, MsgBubbleViolation, MsgInterestSet,
}

unfoldable pub encode_msg_input_state : MsgInputState → W
encode_msg_input_state m =
    pw_write_u32 m.client_tick
    and_then pw_write_i8 m.move_x
    and_then pw_write_i8 m.move_y
    and_then pw_write_i16 m.look_yaw
    and_then pw_write_i16 m.look_pitch
    and_then pw_write_u32 m.buttons
    and_then pw_write_u32 m.equipped_form_id

unfoldable pub decode_msg_input_state : R MsgInputState
decode_msg_input_state = do
  client_tick ← pr_read_u32
  move_x ← pr_read_i8
  move_y ← pr_read_i8
  look_yaw ← pr_read_i16
  look_pitch ← pr_read_i16
  buttons ← pr_read_u32
  equipped_form_id ← pr_read_u32
  done (record {
    client_tick = client_tick;
    move_x = move_x;
    move_y = move_y;
    look_yaw = look_yaw;
    look_pitch = look_pitch;
    buttons = buttons;
    equipped_form_id = equipped_form_id;
  })

unfoldable pub encode_msg_player_state : MsgPlayerState → W
encode_msg_player_state m =
    pw_write_u16 m.player_id
    and_then pw_write_u16 m.reserved
    and_then pw_write_vec3 m.position
    and_then pw_write_rot3 m.rotation
    and_then pw_write_vec3 m.velocity
    and_then pw_write_u8 m.stance
    and_then pw_write_bytes m.reserved2
    and_then pw_write_u16 m.anim_state
    and_then pw_write_u16 m.reserved3
    and_then pw_write_u32 m.equipped_form_id
    and_then pw_write_u32 m.state_sequence
    and_then pw_write_u32 m.observed_tick

unfoldable pub decode_msg_player_state : R MsgPlayerState
decode_msg_player_state = do
  player_id ← pr_read_u16
  reserved ← pr_read_u16
  position ← pr_read_vec3
  rotation ← pr_read_rot3
  velocity ← pr_read_vec3
  stance ← pr_read_u8
  reserved2 ← pr_read_bytes 3
  anim_state ← pr_read_u16
  reserved3 ← pr_read_u16
  equipped_form_id ← pr_read_u32
  state_sequence ← pr_read_u32
  observed_tick ← pr_read_u32
  done (record {
    player_id = player_id;
    reserved = reserved;
    position = position;
    rotation = rotation;
    velocity = velocity;
    stance = stance;
    reserved2 = reserved2;
    anim_state = anim_state;
    reserved3 = reserved3;
    equipped_form_id = equipped_form_id;
    state_sequence = state_sequence;
    observed_tick = observed_tick;
  })

unfoldable pub encode_msg_player_left : MsgPlayerLeft → W
encode_msg_player_left m = pw_write_u16 m.player_id and_then pw_write_u16 m.reserved

unfoldable pub decode_msg_player_left : R MsgPlayerLeft
decode_msg_player_left = do
  player_id ← pr_read_u16
  reserved ← pr_read_u16
  done (record { player_id = player_id; reserved = reserved })

unfoldable pub encode_msg_bubble_violation : MsgBubbleViolation → W
encode_msg_bubble_violation m =
    pw_write_u16 m.player_id
    and_then pw_write_u8 m.mode
    and_then pw_write_u8 m.reserved
    and_then pw_write_vec3 m.safe_position

unfoldable pub decode_msg_bubble_violation : R MsgBubbleViolation
decode_msg_bubble_violation = do
  player_id ← pr_read_u16
  mode ← pr_read_u8
  reserved ← pr_read_u8
  safe_position ← pr_read_vec3
  done (record {
    player_id = player_id;
    mode = mode;
    reserved = reserved;
    safe_position = safe_position;
  })

unfoldable pub encode_msg_interest_set : MsgInterestSet → List ℕ → W
encode_msg_interest_set m cells =
    pw_write_f32 m.bubble_center.x
    and_then pw_write_f32 m.bubble_center.y
    and_then pw_write_f32 m.bubble_center.z
    and_then pw_write_f32 m.bubble_radius
    and_then pw_write_u16 m.cell_count
    and_then pw_write_u16 m.reserved
    and_then write_rows pw_write_u32 m.cell_count cells

unfoldable pub decode_msg_interest_set : ℕ → R (MsgInterestSet × List ℕ)
decode_msg_interest_set max_cells = do
  x ← pr_read_f32
  y ← pr_read_f32
  z ← pr_read_f32
  bubble_radius ← pr_read_f32
  cell_count ← pr_read_u16
  reserved ← pr_read_u16
  cells ← read_at_most max_cells (read_rows pr_read_u32 cell_count) cell_count
  done (
    record {
      bubble_center = record { x = x; y = y; z = z };
      bubble_radius = bubble_radius;
      cell_count = cell_count;
      reserved = reserved;
    },
    cells,
  )
