-- ===== src/Messages/Actor.antt =====
-- shared/protocol/messages_actor.h: the structs that cross the wire.
use f4mp.Base.{ℕ, ◌^◌, ◌<◌, List}
use f4mp.Messages.Types.{Vec3f, IsVec3f, Rot3f, IsRot3f, Holds}

pub record MsgActorSpawn : Type 0 where
  pub actor_net_id : ℕ
  pub base_form_id : ℕ
  pub position : Vec3f
  pub rotation : Rot3f
  pub actor_kind : ℕ
  pub reserved0 : ℕ
  pub flags : ℕ

-- Each field is in the range of its C type.
pub record IsMsgActorSpawn (m : MsgActorSpawn) : Type 0 where
  pub actor_net_id : m.actor_net_id < 2 ^ 32
  pub base_form_id : m.base_form_id < 2 ^ 32
  pub position : IsVec3f m.position
  pub rotation : IsRot3f m.rotation
  pub actor_kind : m.actor_kind < 2 ^ 8
  pub reserved0 : m.reserved0 < 2 ^ 8
  pub flags : m.flags < 2 ^ 16

pub record MsgActorState : Type 0 where
  pub actor_net_id : ℕ
  pub position : Vec3f
  pub rotation : Rot3f
  pub health_norm : ℕ
  pub anim_state : ℕ
  pub actor_flags : ℕ
  pub target_net_id : ℕ

-- Each field is in the range of its C type.
pub record IsMsgActorState (m : MsgActorState) : Type 0 where
  pub actor_net_id : m.actor_net_id < 2 ^ 32
  pub position : IsVec3f m.position
  pub rotation : IsRot3f m.rotation
  pub health_norm : m.health_norm < 2 ^ 32
  pub anim_state : m.anim_state < 2 ^ 16
  pub actor_flags : m.actor_flags < 2 ^ 16
  pub target_net_id : m.target_net_id < 2 ^ 32

pub record MsgActorDespawn : Type 0 where
  pub actor_net_id : ℕ
  pub reason : ℕ
  pub reserved0 : List ℕ

-- Each field is in the range of its C type.
pub record IsMsgActorDespawn (m : MsgActorDespawn) : Type 0 where
  pub actor_net_id : m.actor_net_id < 2 ^ 32
  pub reason : m.reason < 2 ^ 8
  pub reserved0 : Holds 3 m.reserved0
