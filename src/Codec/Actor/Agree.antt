-- ===== src/Codec/Actor/Agree.antt =====
-- shared/protocol/packet_codec.c: lemmas on the encoders and decoders of messages_actor.h.
use f4mp.Wire.Codes.{Codes, Codes-map, Codes-cons}
use f4mp.Wire.Fields.{bytes-Codes, f32-Codes, u16-Codes, u32-Codes, u8-Codes}
use f4mp.Codec.Vectors.{rot3-Codes, vec3-Codes}
use f4mp.Messages.Actor.{
  MsgActorSpawn, MsgActorState, MsgActorDespawn, IsMsgActorSpawn, IsMsgActorState,
  IsMsgActorDespawn,
}
use f4mp.Codec.Actor.{
  encode_msg_actor_spawn, decode_msg_actor_spawn, encode_msg_actor_state, decode_msg_actor_state,
  encode_msg_actor_despawn, decode_msg_actor_despawn,
}

pub msg_actor_spawn-Codes :
    (m : MsgActorSpawn)
    → IsMsgActorSpawn m
    → Codes (encode_msg_actor_spawn m) decode_msg_actor_spawn m 36
unfolding encode_msg_actor_spawn decode_msg_actor_spawn
msg_actor_spawn-Codes m h = Codes-cons _ (u32-Codes m.actor_net_id h.actor_net_id) (
    Codes-cons _ (u32-Codes m.base_form_id h.base_form_id) (
      Codes-cons _ (vec3-Codes m.position h.position) (
        Codes-cons _ (rot3-Codes m.rotation h.rotation) (
          Codes-cons _ (u8-Codes m.actor_kind h.actor_kind) (
            Codes-cons _ (u8-Codes m.reserved0 h.reserved0)
              (Codes-map _ (u16-Codes m.flags h.flags)))))))

pub msg_actor_state-Codes :
    (m : MsgActorState)
    → IsMsgActorState m
    → Codes (encode_msg_actor_state m) decode_msg_actor_state m 40
unfolding encode_msg_actor_state decode_msg_actor_state
msg_actor_state-Codes m h = Codes-cons _ (u32-Codes m.actor_net_id h.actor_net_id) (
    Codes-cons _ (vec3-Codes m.position h.position) (
      Codes-cons _ (rot3-Codes m.rotation h.rotation) (
        Codes-cons _ (f32-Codes m.health_norm h.health_norm) (
          Codes-cons _ (u16-Codes m.anim_state h.anim_state) (
            Codes-cons _ (u16-Codes m.actor_flags h.actor_flags)
              (Codes-map _ (u32-Codes m.target_net_id h.target_net_id)))))))

pub msg_actor_despawn-Codes :
    (m : MsgActorDespawn)
    → IsMsgActorDespawn m
    → Codes (encode_msg_actor_despawn m) decode_msg_actor_despawn m 8
unfolding encode_msg_actor_despawn decode_msg_actor_despawn
msg_actor_despawn-Codes m h =
    Codes-cons _ (u32-Codes m.actor_net_id h.actor_net_id) (
      Codes-cons _ (u8-Codes m.reason h.reason) (Codes-map _ (bytes-Codes m.reserved0 h.reserved0)))
