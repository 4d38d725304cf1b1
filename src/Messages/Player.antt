-- ===== src/Messages/Player.antt =====
-- shared/protocol/messages_player.h: the structs that cross the wire.
use f4mp.Base.{ℕ, ◌^◌, ◌<◌, List}
use f4mp.Messages.Types.{Vec3f, IsVec3f, Rot3f, IsRot3f, Holds}

pub record MsgInputState : Type 0 where
  pub client_tick : ℕ
  pub move_x : ℕ
  pub move_y : ℕ
  pub look_yaw : ℕ
  pub look_pitch : ℕ
  pub buttons : ℕ
  pub equipped_form_id : ℕ

-- Each field is in the range of its C type.
pub record IsMsgInputState (m : MsgInputState) : Type 0 where
  pub client_tick : m.client_tick < 2 ^ 32
  pub move_x : m.move_x < 2 ^ 8
  pub move_y : m.move_y < 2 ^ 8
  pub look_yaw : m.look_yaw < 2 ^ 16
  pub look_pitch : m.look_pitch < 2 ^ 16
  pub buttons : m.buttons < 2 ^ 32
  pub equipped_form_id : m.equipped_form_id < 2 ^ 32

pub record MsgPlayerState : Type 0 where
  pub player_id : ℕ
  pub reserved : ℕ
  pub position : Vec3f
  pub rotation : Rot3f
  pub velocity : Vec3f
  pub stance : ℕ
  pub reserved2 : List ℕ
  pub anim_state : ℕ
  pub reserved3 : ℕ
  pub equipped_form_id : ℕ
  pub state_sequence : ℕ
  pub observed_tick : ℕ

-- Each field is in the range of its C type.
pub record IsMsgPlayerState (m : MsgPlayerState) : Type 0 where
  pub player_id : m.player_id < 2 ^ 16
  pub reserved : m.reserved < 2 ^ 16
  pub position : IsVec3f m.position
  pub rotation : IsRot3f m.rotation
  pub velocity : IsVec3f m.velocity
  pub stance : m.stance < 2 ^ 8
  pub reserved2 : Holds 3 m.reserved2
  pub anim_state : m.anim_state < 2 ^ 16
  pub reserved3 : m.reserved3 < 2 ^ 16
  pub equipped_form_id : m.equipped_form_id < 2 ^ 32
  pub state_sequence : m.state_sequence < 2 ^ 32
  pub observed_tick : m.observed_tick < 2 ^ 32

pub record MsgPlayerLeft : Type 0 where
  pub player_id : ℕ
  pub reserved : ℕ

-- Each field is in the range of its C type.
pub record IsMsgPlayerLeft (m : MsgPlayerLeft) : Type 0 where
  pub player_id : m.player_id < 2 ^ 16
  pub reserved : m.reserved < 2 ^ 16

pub record MsgInterestSet : Type 0 where
  pub bubble_center : Vec3f
  pub bubble_radius : ℕ
  pub cell_count : ℕ
  pub reserved : ℕ

-- Each field is in the range of its C type.
pub record IsMsgInterestSet (m : MsgInterestSet) : Type 0 where
  pub bubble_center : IsVec3f m.bubble_center
  pub bubble_radius : m.bubble_radius < 2 ^ 32
  pub cell_count : m.cell_count < 2 ^ 16
  pub reserved : m.reserved < 2 ^ 16

pub record MsgBubbleViolation : Type 0 where
  pub player_id : ℕ
  pub mode : ℕ
  pub reserved : ℕ
  pub safe_position : Vec3f

-- Each field is in the range of its C type.
pub record IsMsgBubbleViolation (m : MsgBubbleViolation) : Type 0 where
  pub player_id : m.player_id < 2 ^ 16
  pub mode : m.mode < 2 ^ 8
  pub reserved : m.reserved < 2 ^ 8
  pub safe_position : IsVec3f m.safe_position
