-- ===== src/Codec/Actor.antt =====
-- shared/protocol/packet_codec.c: the messages of messages_actor.h.
pub mod Agree
use f4mp.Wire.Writer.{
  W, ◌and_then◌, pw_write_bytes, pw_write_f32, pw_write_u16, pw_write_u32, pw_write_u8,
}
use f4mp.Wire.Reader.{
  R, ◌>>=◌, done, pr_read_bytes, pr_read_f32, pr_read_u16, pr_read_u32, pr_read_u8,
}
use f4mp.Codec.Vectors.{pw_write_rot3, pw_write_vec3, pr_read_rot3, pr_read_vec3}
use f4mp.Messages.Actor.{MsgActorSpawn, MsgActorState, MsgActorDespawn}

unfoldable pub encode_msg_actor_spawn : MsgActorSpawn → W
encode_msg_actor_spawn m =
    pw_write_u32 m.actor_net_id
    and_then pw_write_u32 m.base_form_id
    and_then pw_write_vec3 m.position
    and_then pw_write_rot3 m.rotation
    and_then pw_write_u8 m.actor_kind
    and_then pw_write_u8 m.reserved0
    and_then pw_write_u16 m.flags

unfoldable pub decode_msg_actor_spawn : R MsgActorSpawn
decode_msg_actor_spawn = do
  actor_net_id ← pr_read_u32
  base_form_id ← pr_read_u32
  position ← pr_read_vec3
  rotation ← pr_read_rot3
  actor_kind ← pr_read_u8
  reserved0 ← pr_read_u8
  flags ← pr_read_u16
  done (record {
    actor_net_id = actor_net_id;
    base_form_id = base_form_id;
    position = position;
    rotation = rotation;
    actor_kind = actor_kind;
    reserved0 = reserved0;
    flags = flags;
  })

unfoldable pub encode_msg_actor_state : MsgActorState → W
encode_msg_actor_state m =
    pw_write_u32 m.actor_net_id
    and_then pw_write_vec3 m.position
    and_then pw_write_rot3 m.rotation
    and_then pw_write_f32 m.health_norm
    and_then pw_write_u16 m.anim_state
    and_then pw_write_u16 m.actor_flags
    and_then pw_write_u32 m.target_net_id

unfoldable pub decode_msg_actor_state : R MsgActorState
decode_msg_actor_state = do
  actor_net_id ← pr_read_u32
  position ← pr_read_vec3
  rotation ← pr_read_rot3
  health_norm ← pr_read_f32
  anim_state ← pr_read_u16
  actor_flags ← pr_read_u16
  target_net_id ← pr_read_u32
  done (record {
    actor_net_id = actor_net_id;
    position = position;
    rotation = rotation;
    health_norm = health_norm;
    anim_state = anim_state;
    actor_flags = actor_flags;
    target_net_id = target_net_id;
  })

unfoldable pub encode_msg_actor_despawn : MsgActorDespawn → W
encode_msg_actor_despawn m =
    pw_write_u32 m.actor_net_id and_then pw_write_u8 m.reason and_then pw_write_bytes m.reserved0

unfoldable pub decode_msg_actor_despawn : R MsgActorDespawn
decode_msg_actor_despawn = do
  actor_net_id ← pr_read_u32
  reason ← pr_read_u8
  reserved0 ← pr_read_bytes 3
  done (record { actor_net_id = actor_net_id; reason = reason; reserved0 = reserved0 })
