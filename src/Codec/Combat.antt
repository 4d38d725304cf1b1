-- ===== src/Codec/Combat.antt =====
-- shared/protocol/packet_codec.c: the messages of messages_combat.h.
pub mod Agree
use f4mp.Wire.Writer.{
  W, ◌and_then◌, pw_write_bytes, pw_write_f32, pw_write_u16, pw_write_u32, pw_write_u8,
}
use f4mp.Wire.Reader.{
  R, ◌>>=◌, done, pr_read_bytes, pr_read_f32, pr_read_u16, pr_read_u32, pr_read_u8,
}
use f4mp.Codec.Vectors.{pw_write_vec3, pr_read_vec3}
use f4mp.Messages.Combat.{MsgFireIntent, MsgMeleeIntent, MsgDamageResult, MsgDeathEvent}

unfoldable pub encode_msg_fire_intent : MsgFireIntent → W
encode_msg_fire_intent m =
    pw_write_u16 m.player_id
    and_then pw_write_u16 m.reserved0
    and_then pw_write_u32 m.weapon_form_id
    and_then pw_write_vec3 m.origin
    and_then pw_write_vec3 m.direction
    and_then pw_write_u8 m.mode
    and_then pw_write_bytes m.reserved1
    and_then pw_write_u32 m.fire_flags

unfoldable pub decode_msg_fire_intent : R MsgFireIntent
decode_msg_fire_intent = do
  player_id ← pr_read_u16
  reserved0 ← pr_read_u16
  weapon_form_id ← pr_read_u32
  origin ← pr_read_vec3
  direction ← pr_read_vec3
  mode ← pr_read_u8
  reserved1 ← pr_read_bytes 3
  fire_flags ← pr_read_u32
  done (record {
    player_id = player_id;
    reserved0 = reserved0;
    weapon_form_id = weapon_form_id;
    origin = origin;
    direction = direction;
    mode = mode;
    reserved1 = reserved1;
    fire_flags = fire_flags;
  })

unfoldable pub encode_msg_melee_intent : MsgMeleeIntent → W
encode_msg_melee_intent m =
    pw_write_u16 m.player_id
    and_then pw_write_u16 m.reserved0
    and_then pw_write_u32 m.weapon_form_id
    and_then pw_write_u32 m.target_hint_net_id
    and_then pw_write_u32 m.melee_flags

unfoldable pub decode_msg_melee_intent : R MsgMeleeIntent
decode_msg_melee_intent = do
  player_id ← pr_read_u16
  reserved0 ← pr_read_u16
  weapon_form_id ← pr_read_u32
  target_hint_net_id ← pr_read_u32
  melee_flags ← pr_read_u32
  done (record {
    player_id = player_id;
    reserved0 = reserved0;
    weapon_form_id = weapon_form_id;
    target_hint_net_id = target_hint_net_id;
    melee_flags = melee_flags;
  })

unfoldable pub encode_msg_damage_result : MsgDamageResult → W
encode_msg_damage_result m =
    pw_write_u32 m.attacker_id
    and_then pw_write_u32 m.victim_actor_net_id
    and_then pw_write_f32 m.damage_amount
    and_then pw_write_u8 m.damage_type
    and_then pw_write_u8 m.reserved0
    and_then pw_write_u16 m.flags
    and_then pw_write_f32 m.health_after

unfoldable pub decode_msg_damage_result : R MsgDamageResult
decode_msg_damage_result = do
  attacker_id ← pr_read_u32
  victim_actor_net_id ← pr_read_u32
  damage_amount ← pr_read_f32
  damage_type ← pr_read_u8
  reserved0 ← pr_read_u8
  flags ← pr_read_u16
  health_after ← pr_read_f32
  done (record {
    attacker_id = attacker_id;
    victim_actor_net_id = victim_actor_net_id;
    damage_amount = damage_amount;
    damage_type = damage_type;
    reserved0 = reserved0;
    flags = flags;
    health_after = health_after;
  })

unfoldable pub encode_msg_death_event : MsgDeathEvent → W
encode_msg_death_event m =
    pw_write_u32 m.victim_actor_net_id
    and_then pw_write_u32 m.killer_id
    and_then pw_write_u32 m.ragdoll_seed

unfoldable pub decode_msg_death_event : R MsgDeathEvent
decode_msg_death_event = do
  victim_actor_net_id ← pr_read_u32
  killer_id ← pr_read_u32
  ragdoll_seed ← pr_read_u32
  done (record {
    victim_actor_net_id = victim_actor_net_id;
    killer_id = killer_id;
    ragdoll_seed = ragdoll_seed;
  })
