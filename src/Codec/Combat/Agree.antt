-- ===== src/Codec/Combat/Agree.antt =====
-- shared/protocol/packet_codec.c: lemmas on the encoders and decoders of messages_combat.h.
use f4mp.Wire.Codes.{Codes, Codes-map, Codes-cons}
use f4mp.Wire.Fields.{bytes-Codes, f32-Codes, u16-Codes, u32-Codes, u8-Codes}
use f4mp.Codec.Vectors.{vec3-Codes}
use f4mp.Messages.Combat.{
  MsgFireIntent, MsgMeleeIntent, MsgDamageResult, MsgDeathEvent, IsMsgFireIntent, IsMsgMeleeIntent,
  IsMsgDamageResult, IsMsgDeathEvent,
}
use f4mp.Codec.Combat.{
  encode_msg_fire_intent, decode_msg_fire_intent, encode_msg_melee_intent, decode_msg_melee_intent,
  encode_msg_damage_result, decode_msg_damage_result, encode_msg_death_event,
  decode_msg_death_event,
}

-- A fire intent whose fields are in range is written as 40 bytes, where they fit the writer, refused
-- where they do not, and read back as the same message with the reader behind them; bytes that are cut
-- short are refused.
pub msg_fire_intent-Codes :
    (m : MsgFireIntent)
    → IsMsgFireIntent m
    → Codes (encode_msg_fire_intent m) decode_msg_fire_intent m 40
unfolding encode_msg_fire_intent decode_msg_fire_intent
msg_fire_intent-Codes m h = Codes-cons _ (u16-Codes m.player_id h.player_id) (
    Codes-cons _ (u16-Codes m.reserved0 h.reserved0) (
      Codes-cons _ (u32-Codes m.weapon_form_id h.weapon_form_id) (
        Codes-cons _ (vec3-Codes m.origin h.origin) (
          Codes-cons _ (vec3-Codes m.direction h.direction) (
            Codes-cons _ (u8-Codes m.mode h.mode) (
              Codes-cons _ (bytes-Codes m.reserved1 h.reserved1)
                (Codes-map _ (u32-Codes m.fire_flags h.fire_flags))))))))

pub msg_melee_intent-Codes :
    (m : MsgMeleeIntent)
    → IsMsgMeleeIntent m
    → Codes (encode_msg_melee_intent m) decode_msg_melee_intent m 16
unfolding encode_msg_melee_intent decode_msg_melee_intent
msg_melee_intent-Codes m h = Codes-cons _ (u16-Codes m.player_id h.player_id) (
    Codes-cons _ (u16-Codes m.reserved0 h.reserved0) (
      Codes-cons _ (u32-Codes m.weapon_form_id h.weapon_form_id) (
        Codes-cons _ (u32-Codes m.target_hint_net_id h.target_hint_net_id)
          (Codes-map _ (u32-Codes m.melee_flags h.melee_flags)))))

pub msg_damage_result-Codes :
    (m : MsgDamageResult)
    → IsMsgDamageResult m
    → Codes (encode_msg_damage_result m) decode_msg_damage_result m 20
unfolding encode_msg_damage_result decode_msg_damage_result
msg_damage_result-Codes m h = Codes-cons _ (u32-Codes m.attacker_id h.attacker_id) (
    Codes-cons _ (u32-Codes m.victim_actor_net_id h.victim_actor_net_id) (
      Codes-cons _ (f32-Codes m.damage_amount h.damage_amount) (
        Codes-cons _ (u8-Codes m.damage_type h.damage_type) (
          Codes-cons _ (u8-Codes m.reserved0 h.reserved0) (
            Codes-cons _ (u16-Codes m.flags h.flags)
              (Codes-map _ (f32-Codes m.health_after h.health_after)))))))

pub msg_death_event-Codes :
    (m : MsgDeathEvent)
    → IsMsgDeathEvent m
    → Codes (encode_msg_death_event m) decode_msg_death_event m 12
unfolding encode_msg_death_event decode_msg_death_event
msg_death_event-Codes m h = Codes-cons _ (u32-Codes m.victim_actor_net_id h.victim_actor_net_id) (
    Codes-cons _ (u32-Codes m.killer_id h.killer_id)
      (Codes-map _ (u32-Codes m.ragdoll_seed h.ragdoll_seed)))
