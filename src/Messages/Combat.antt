-- ===== src/Messages/Combat.antt =====
-- shared/protocol/messages_combat.h: the structs that cross the wire.
use f4mp.Base.{ℕ, ◌^◌, ◌<◌, List}
use f4mp.Messages.Types.{Vec3f, IsVec3f, Holds}

pub record MsgFireIntent : Type 0 where
  pub player_id : ℕ
  pub reserved0 : ℕ
  pub weapon_form_id : ℕ
  pub origin : Vec3f
  pub direction : Vec3f
  pub mode : ℕ
  pub reserved1 : List ℕ
  pub fire_flags : ℕ

-- Each field is in the range of its C type.
pub record IsMsgFireIntent (m : MsgFireIntent) : Type 0 where
  pub player_id : m.player_id < 2 ^ 16
  pub reserved0 : m.reserved0 < 2 ^ 16
  pub weapon_form_id : m.weapon_form_id < 2 ^ 32
  pub origin : IsVec3f m.origin
  pub direction : IsVec3f m.direction
  pub mode : m.mode < 2 ^ 8
  pub reserved1 : Holds 3 m.reserved1
  pub fire_flags : m.fire_flags < 2 ^ 32

pub record MsgMeleeIntent : Type 0 where
  pub player_id : ℕ
  pub reserved0 : ℕ
  pub weapon_form_id : ℕ
  pub target_hint_net_id : ℕ
  pub melee_flags : ℕ

-- Each field is in the range of its C type.
pub record IsMsgMeleeIntent (m : MsgMeleeIntent) : Type 0 where
  pub player_id : m.player_id < 2 ^ 16
  pub reserved0 : m.reserved0 < 2 ^ 16
  pub weapon_form_id : m.weapon_form_id < 2 ^ 32
  pub target_hint_net_id : m.target_hint_net_id < 2 ^ 32
  pub melee_flags : m.melee_flags < 2 ^ 32

pub record MsgDamageResult : Type 0 where
  pub attacker_id : ℕ
  pub victim_actor_net_id : ℕ
  pub damage_amount : ℕ
  pub damage_type : ℕ
  pub reserved0 : ℕ
  pub flags : ℕ
  pub health_after : ℕ

-- Each field is in the range of its C type.
pub record IsMsgDamageResult (m : MsgDamageResult) : Type 0 where
  pub attacker_id : m.attacker_id < 2 ^ 32
  pub victim_actor_net_id : m.victim_actor_net_id < 2 ^ 32
  pub damage_amount : m.damage_amount < 2 ^ 32
  pub damage_type : m.damage_type < 2 ^ 8
  pub reserved0 : m.reserved0 < 2 ^ 8
  pub flags : m.flags < 2 ^ 16
  pub health_after : m.health_after < 2 ^ 32

pub record MsgDeathEvent : Type 0 where
  pub victim_actor_net_id : ℕ
  pub killer_id : ℕ
  pub ragdoll_seed : ℕ

-- Each field is in the range of its C type.
pub record IsMsgDeathEvent (m : MsgDeathEvent) : Type 0 where
  pub victim_actor_net_id : m.victim_actor_net_id < 2 ^ 32
  pub killer_id : m.killer_id < 2 ^ 32
  pub ragdoll_seed : m.ragdoll_seed < 2 ^ 32
