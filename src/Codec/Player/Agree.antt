-- ===== src/Codec/Player/Agree.antt =====
-- shared/protocol/packet_codec.c: lemmas on the encoders and decoders of messages_player.h.
use f4mp.Base.{ℕ, ◌+◌, arith, ◌<◌, ◌≤◌, ◌≡◌, List, length, All, ◌^◌}
use f4mp.Codec.Rows.{array-Codes, total}
use f4mp.Wire.Writer.{pw_write_u32}
use f4mp.Wire.Reader.{pr_read_u32}
use f4mp.Wire.Codes.{Codes, Codes-map, Codes-cons, Codes-resize}
use f4mp.Wire.Fields.{bytes-Codes, f32-Codes, i16-Codes, i8-Codes, u16-Codes, u32-Codes, u8-Codes}
use f4mp.Codec.Vectors.{rot3-Codes, vec3-Codes}
use f4mp.Messages.Player.{
  MsgInputState, MsgPlayerState, MsgPlayerLeft, MsgBubbleViolation, MsgInterestSet, IsMsgInputState,
  IsMsgPlayerState, IsMsgPlayerLeft, IsMsgBubbleViolation, IsMsgInterestSet,
}
use f4mp.Codec.Player.{
  encode_msg_input_state, decode_msg_input_state, encode_msg_player_state, decode_msg_player_state,
  encode_msg_player_left, decode_msg_player_left, encode_msg_bubble_violation,
  decode_msg_bubble_violation, encode_msg_interest_set, decode_msg_interest_set,
}

pub msg_input_state-Codes :
    (m : MsgInputState)
    → IsMsgInputState m
    → Codes (encode_msg_input_state m) decode_msg_input_state m 18
unfolding encode_msg_input_state decode_msg_input_state
msg_input_state-Codes m h = Codes-cons _ (u32-Codes m.client_tick h.client_tick) (
    Codes-cons _ (i8-Codes m.move_x h.move_x) (
      Codes-cons _ (i8-Codes m.move_y h.move_y) (
        Codes-cons _ (i16-Codes m.look_yaw h.look_yaw) (
          Codes-cons _ (i16-Codes m.look_pitch h.look_pitch) (
            Codes-cons _ (u32-Codes m.buttons h.buttons)
              (Codes-map _ (u32-Codes m.equipped_form_id h.equipped_form_id)))))))

-- A player state whose fields are in range is written as 60 bytes, where they fit the writer, refused
-- where they do not, and read back as the same message with the reader behind them; bytes that are cut
-- short are refused.
pub msg_player_state-Codes :
    (m : MsgPlayerState)
    → IsMsgPlayerState m
    → Codes (encode_msg_player_state m) decode_msg_player_state m 60
unfolding encode_msg_player_state decode_msg_player_state
msg_player_state-Codes m h = Codes-cons _ (u16-Codes m.player_id h.player_id) (
    Codes-cons _ (u16-Codes m.reserved h.reserved) (
      Codes-cons _ (vec3-Codes m.position h.position) (
        Codes-cons _ (rot3-Codes m.rotation h.rotation) (
          Codes-cons _ (vec3-Codes m.velocity h.velocity) (
            Codes-cons _ (u8-Codes m.stance h.stance) (
              Codes-cons _ (bytes-Codes m.reserved2 h.reserved2) (
                Codes-cons _ (u16-Codes m.anim_state h.anim_state) (
                  Codes-cons _ (u16-Codes m.reserved3 h.reserved3) (
                    Codes-cons _ (u32-Codes m.equipped_form_id h.equipped_form_id) (
                      Codes-cons _ (u32-Codes m.state_sequence h.state_sequence)
                        (Codes-map _ (u32-Codes m.observed_tick h.observed_tick))))))))))))

pub msg_player_left-Codes :
    (m : MsgPlayerLeft)
    → IsMsgPlayerLeft m
    → Codes (encode_msg_player_left m) decode_msg_player_left m 4
unfolding encode_msg_player_left decode_msg_player_left
msg_player_left-Codes m h =
    Codes-cons _ (u16-Codes m.player_id h.player_id) (Codes-map _ (u16-Codes m.reserved h.reserved))

pub msg_bubble_violation-Codes :
    (m : MsgBubbleViolation)
    → IsMsgBubbleViolation m
    → Codes (encode_msg_bubble_violation m) decode_msg_bubble_violation m 16
unfolding encode_msg_bubble_violation decode_msg_bubble_violation
msg_bubble_violation-Codes m h = Codes-cons _ (u16-Codes m.player_id h.player_id) (
    Codes-cons _ (u8-Codes m.mode h.mode) (
      Codes-cons _ (u8-Codes m.reserved h.reserved)
        (Codes-map _ (vec3-Codes m.safe_position h.safe_position))))

pub msg_interest_set-Codes :
    (m : MsgInterestSet) (cells : List ℕ) (max_cells : ℕ)
    → IsMsgInterestSet m
    → m.cell_count ≡ length cells
    → m.cell_count ≤ max_cells
    → All (λ c. c < 2 ^ 32) cells
    → Codes
        (encode_msg_interest_set m cells)
        (decode_msg_interest_set max_cells)
        (m, cells)
        (20 + total (λ _. 4) cells)
unfolding encode_msg_interest_set decode_msg_interest_set
msg_interest_set-Codes m cells max_cells h e room good = Codes-resize (omega arith) (
    Codes-cons _ (f32-Codes m.bubble_center.x h.bubble_center.x) (
      Codes-cons _ (f32-Codes m.bubble_center.y h.bubble_center.y) (
        Codes-cons _ (f32-Codes m.bubble_center.z h.bubble_center.z) (
          Codes-cons _ (f32-Codes m.bubble_radius h.bubble_radius) (
            Codes-cons _ (u16-Codes m.cell_count h.cell_count) (
              Codes-cons _ (u16-Codes m.reserved h.reserved) (
                Codes-map _ (
                  array-Codes (λ _. 4) (λ c. c < 2 ^ 32) pw_write_u32 pr_read_u32 u32-Codes cells
                    good m.cell_count max_cells e room))))))))
