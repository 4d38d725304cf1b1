-- ===== src/Messages/Workshop.antt =====
-- shared/protocol/messages_workshop.h: the structs that cross the wire.
use f4mp.Base.{ℕ, ◌^◌, ◌<◌, List}
use f4mp.Messages.Types.{Vec3f, IsVec3f, Rot3f, IsRot3f, Holds}

pub record MsgBuildRequest : Type 0 where
  pub request_id : ℕ
  pub player_id : ℕ
  pub reserved0 : ℕ
  pub settlement_id : ℕ
  pub form_id : ℕ
  pub position : Vec3f
  pub rotation : Rot3f
  pub snap_target_net_id : ℕ

-- Each field is in the range of its C type.
pub record IsMsgBuildRequest (m : MsgBuildRequest) : Type 0 where
  pub request_id : m.request_id < 2 ^ 32
  pub player_id : m.player_id < 2 ^ 16
  pub reserved0 : m.reserved0 < 2 ^ 16
  pub settlement_id : m.settlement_id < 2 ^ 32
  pub form_id : m.form_id < 2 ^ 32
  pub position : IsVec3f m.position
  pub rotation : IsRot3f m.rotation
  pub snap_target_net_id : m.snap_target_net_id < 2 ^ 32

pub record MsgBuildResult : Type 0 where
  pub request_id : ℕ
  pub accepted : ℕ
  pub reason : ℕ
  pub reserved0 : ℕ
  pub object_net_id : ℕ

-- Each field is in the range of its C type.
pub record IsMsgBuildResult (m : MsgBuildResult) : Type 0 where
  pub request_id : m.request_id < 2 ^ 32
  pub accepted : m.accepted < 2 ^ 8
  pub reason : m.reason < 2 ^ 8
  pub reserved0 : m.reserved0 < 2 ^ 16
  pub object_net_id : m.object_net_id < 2 ^ 32

pub record MsgObjectSpawn : Type 0 where
  pub object_net_id : ℕ
  pub form_id : ℕ
  pub position : Vec3f
  pub rotation : Rot3f
  pub state_flags : ℕ
  pub reserved0 : ℕ

-- Each field is in the range of its C type.
pub record IsMsgObjectSpawn (m : MsgObjectSpawn) : Type 0 where
  pub object_net_id : m.object_net_id < 2 ^ 32
  pub form_id : m.form_id < 2 ^ 32
  pub position : IsVec3f m.position
  pub rotation : IsRot3f m.rotation
  pub state_flags : m.state_flags < 2 ^ 16
  pub reserved0 : m.reserved0 < 2 ^ 16

pub record MsgObjectMoveRequest : Type 0 where
  pub request_id : ℕ
  pub player_id : ℕ
  pub reserved0 : ℕ
  pub object_net_id : ℕ
  pub position : Vec3f
  pub rotation : Rot3f

-- Each field is in the range of its C type.
pub record IsMsgObjectMoveRequest (m : MsgObjectMoveRequest) : Type 0 where
  pub request_id : m.request_id < 2 ^ 32
  pub player_id : m.player_id < 2 ^ 16
  pub reserved0 : m.reserved0 < 2 ^ 16
  pub object_net_id : m.object_net_id < 2 ^ 32
  pub position : IsVec3f m.position
  pub rotation : IsRot3f m.rotation

pub record MsgObjectScrapRequest : Type 0 where
  pub request_id : ℕ
  pub player_id : ℕ
  pub reserved0 : ℕ
  pub object_net_id : ℕ

-- Each field is in the range of its C type.
pub record IsMsgObjectScrapRequest (m : MsgObjectScrapRequest) : Type 0 where
  pub request_id : m.request_id < 2 ^ 32
  pub player_id : m.player_id < 2 ^ 16
  pub reserved0 : m.reserved0 < 2 ^ 16
  pub object_net_id : m.object_net_id < 2 ^ 32

pub record MsgObjectUpdate : Type 0 where
  pub object_net_id : ℕ
  pub fields_mask : ℕ
  pub position : Vec3f
  pub rotation : Rot3f
  pub state_flags : ℕ
  pub reserved0 : ℕ

-- Each field is in the range of its C type.
pub record IsMsgObjectUpdate (m : MsgObjectUpdate) : Type 0 where
  pub object_net_id : m.object_net_id < 2 ^ 32
  pub fields_mask : m.fields_mask < 2 ^ 32
  pub position : IsVec3f m.position
  pub rotation : IsRot3f m.rotation
  pub state_flags : m.state_flags < 2 ^ 16
  pub reserved0 : m.reserved0 < 2 ^ 16

pub record MsgObjectDespawn : Type 0 where
  pub object_net_id : ℕ
  pub reason : ℕ
  pub reserved0 : List ℕ

-- Each field is in the range of its C type.
pub record IsMsgObjectDespawn (m : MsgObjectDespawn) : Type 0 where
  pub object_net_id : m.object_net_id < 2 ^ 32
  pub reason : m.reason < 2 ^ 8
  pub reserved0 : Holds 3 m.reserved0
