-- ===== src/Client/Delivery/Updates.antt =====
-- The messages of one size that the service announces its world with, and what each does to a plugin.
use f4mp.Base.{ℕ, ◌+◌, ◌^◌, ◌<◌, ◌≡◌, refl, Bool, true, List, [], ◌∷◌, ◌++◌, arith, length}
use f4mp.Wire.Writer.{W}
use f4mp.Messages.Player.{MsgPlayerState, IsMsgPlayerState, MsgPlayerLeft, IsMsgPlayerLeft}
use f4mp.Messages.Actor.{
  MsgActorSpawn, IsMsgActorSpawn, MsgActorState, IsMsgActorState, MsgActorDespawn,
  IsMsgActorDespawn,
}
use f4mp.Messages.Combat.{MsgDamageResult, IsMsgDamageResult, MsgDeathEvent, IsMsgDeathEvent}
use f4mp.Messages.Workshop.{
  MsgObjectSpawn, IsMsgObjectSpawn, MsgObjectUpdate, IsMsgObjectUpdate, MsgObjectDespawn,
  IsMsgObjectDespawn,
}
use f4mp.Messages.Ui.{MsgDialogueOpen, IsMsgDialogueOpen, MsgDialogueClose, IsMsgDialogueClose}
use f4mp.Messages.Control.{
  MsgProfileSnapshot, IsMsgProfileSnapshot, MsgProfileAppearance, IsMsgProfileAppearance,
}
use f4mp.Codec.Player.{
  encode_msg_player_state, decode_msg_player_state, encode_msg_player_left, decode_msg_player_left,
}
use f4mp.Codec.Player.Agree.{msg_player_state-Codes, msg_player_left-Codes}
use f4mp.Codec.Actor.{
  encode_msg_actor_spawn, decode_msg_actor_spawn, encode_msg_actor_state, decode_msg_actor_state,
  encode_msg_actor_despawn, decode_msg_actor_despawn,
}
use f4mp.Codec.Actor.Agree.{msg_actor_spawn-Codes, msg_actor_state-Codes, msg_actor_despawn-Codes}
use f4mp.Codec.Combat.{
  encode_msg_damage_result, decode_msg_damage_result, encode_msg_death_event,
  decode_msg_death_event,
}
use f4mp.Codec.Combat.Agree.{msg_damage_result-Codes, msg_death_event-Codes}
use f4mp.Codec.Workshop.{
  encode_msg_object_spawn, decode_msg_object_spawn, encode_msg_object_update,
  decode_msg_object_update, encode_msg_object_despawn, decode_msg_object_despawn,
}
use f4mp.Codec.Workshop.Agree.{
  msg_object_spawn-Codes, msg_object_update-Codes, msg_object_despawn-Codes,
}
use f4mp.Codec.Ui.{
  encode_msg_dialogue_open, decode_msg_dialogue_open, encode_msg_dialogue_close,
  decode_msg_dialogue_close,
}
use f4mp.Codec.Ui.Agree.{msg_dialogue_open-Codes, msg_dialogue_close-Codes}
use f4mp.Codec.Control.{
  encode_msg_profile_snapshot, decode_msg_profile_snapshot, encode_msg_profile_appearance,
  decode_msg_profile_appearance,
}
use f4mp.Codec.Control.Agree.{msg_profile_snapshot-Codes, msg_profile_appearance-Codes}
use f4mp.Service.Floats.{Floats}
use f4mp.Service.Transport.{TransportLoopContext, tl_send_single, next_sequence, max_outputs}
use f4mp.Client.Events.{proxy_set_profile_snapshot, proxy_set_profile_appearance}
use f4mp.Client.Manager.{Plugin}
use f4mp.Client.Apply.{
  apply_message, plugin_apply_packet, apply_set, pa_apply_player_state, apply_player_left,
  pa_apply_actor_spawn, pa_apply_actor_state, pa_apply_actor_despawn, pa_apply_damage_result,
  pa_apply_death_event, pa_apply_object_spawn, pa_apply_object_update, pa_apply_object_despawn,
  pa_apply_dialogue_open, pa_apply_dialogue_close,
}
use f4mp.Client.Delivery.{sent_message}

pub data Update : Type 0 where
  sent_player_state : MsgPlayerState → Update
  sent_player_left : MsgPlayerLeft → Update
  sent_actor_spawn : MsgActorSpawn → Update
  sent_actor_state : MsgActorState → Update
  sent_actor_despawn : MsgActorDespawn → Update
  sent_damage_result : MsgDamageResult → Update
  sent_death_event : MsgDeathEvent → Update
  sent_object_spawn : MsgObjectSpawn → Update
  sent_object_update : MsgObjectUpdate → Update
  sent_object_despawn : MsgObjectDespawn → Update
  sent_dialogue_open : MsgDialogueOpen → Update
  sent_dialogue_close : MsgDialogueClose → Update
  sent_profile_snapshot : MsgProfileSnapshot → Update
  sent_profile_appearance : MsgProfileAppearance → Update

-- MSG_ in shared/protocol/message_ids.h.
abbrev pub type_of : Update → ℕ
type_of (sent_player_state m) = 0x0102
type_of (sent_player_left m) = 0x0105
type_of (sent_actor_spawn m) = 0x0201
type_of (sent_actor_state m) = 0x0202
type_of (sent_actor_despawn m) = 0x0203
type_of (sent_damage_result m) = 0x0303
type_of (sent_death_event m) = 0x0304
type_of (sent_object_spawn m) = 0x0403
type_of (sent_object_update m) = 0x0406
type_of (sent_object_despawn m) = 0x0407
type_of (sent_dialogue_open m) = 0x0501
type_of (sent_dialogue_close m) = 0x0505
type_of (sent_profile_snapshot m) = 0x0006
type_of (sent_profile_appearance m) = 0x0009

-- Bytes on the wire.
abbrev pub size_of : Update → ℕ
size_of (sent_player_state m) = 60
size_of (sent_player_left m) = 4
size_of (sent_actor_spawn m) = 36
size_of (sent_actor_state m) = 40
size_of (sent_actor_despawn m) = 8
size_of (sent_damage_result m) = 20
size_of (sent_death_event m) = 12
size_of (sent_object_spawn m) = 36
size_of (sent_object_update m) = 36
size_of (sent_object_despawn m) = 8
size_of (sent_dialogue_open m) = 12
size_of (sent_dialogue_close m) = 8
size_of (sent_profile_snapshot m) = 24
size_of (sent_profile_appearance m) = 8

-- The encoder that goes with the type.
abbrev pub encoder_of : Update → W
encoder_of (sent_player_state m) = encode_msg_player_state m
encoder_of (sent_player_left m) = encode_msg_player_left m
encoder_of (sent_actor_spawn m) = encode_msg_actor_spawn m
encoder_of (sent_actor_state m) = encode_msg_actor_state m
encoder_of (sent_actor_despawn m) = encode_msg_actor_despawn m
encoder_of (sent_damage_result m) = encode_msg_damage_result m
encoder_of (sent_death_event m) = encode_msg_death_event m
encoder_of (sent_object_spawn m) = encode_msg_object_spawn m
encoder_of (sent_object_update m) = encode_msg_object_update m
encoder_of (sent_object_despawn m) = encode_msg_object_despawn m
encoder_of (sent_dialogue_open m) = encode_msg_dialogue_open m
encoder_of (sent_dialogue_close m) = encode_msg_dialogue_close m
encoder_of (sent_profile_snapshot m) = encode_msg_profile_snapshot m
encoder_of (sent_profile_appearance m) = encode_msg_profile_appearance m

-- Each field is in the range of its C type.
abbrev pub IsUpdate : Update → Type 0
IsUpdate (sent_player_state m) = IsMsgPlayerState m
IsUpdate (sent_player_left m) = IsMsgPlayerLeft m
IsUpdate (sent_actor_spawn m) = IsMsgActorSpawn m
IsUpdate (sent_actor_state m) = IsMsgActorState m
IsUpdate (sent_actor_despawn m) = IsMsgActorDespawn m
IsUpdate (sent_damage_result m) = IsMsgDamageResult m
IsUpdate (sent_death_event m) = IsMsgDeathEvent m
IsUpdate (sent_object_spawn m) = IsMsgObjectSpawn m
IsUpdate (sent_object_update m) = IsMsgObjectUpdate m
IsUpdate (sent_object_despawn m) = IsMsgObjectDespawn m
IsUpdate (sent_dialogue_open m) = IsMsgDialogueOpen m
IsUpdate (sent_dialogue_close m) = IsMsgDialogueClose m
IsUpdate (sent_profile_snapshot m) = IsMsgProfileSnapshot m
IsUpdate (sent_profile_appearance m) = IsMsgProfileAppearance m

module _ (F : Floats) where
  -- The function of plugin/src that the message is for.
  abbrev pub apply_update : Update → Plugin → Bool × Plugin
  apply_update (sent_player_state m) = pa_apply_player_state F m
  apply_update (sent_player_left m) = apply_player_left m
  apply_update (sent_actor_spawn m) = pa_apply_actor_spawn m
  apply_update (sent_actor_state m) = pa_apply_actor_state F m
  apply_update (sent_actor_despawn m) = pa_apply_actor_despawn m
  apply_update (sent_damage_result m) = pa_apply_damage_result F m
  apply_update (sent_death_event m) = pa_apply_death_event m
  apply_update (sent_object_spawn m) = pa_apply_object_spawn m
  apply_update (sent_object_update m) = pa_apply_object_update m
  apply_update (sent_object_despawn m) = pa_apply_object_despawn m
  apply_update (sent_dialogue_open m) = pa_apply_dialogue_open m
  apply_update (sent_dialogue_close m) = pa_apply_dialogue_close m
  apply_update (sent_profile_snapshot m) = apply_set (proxy_set_profile_snapshot m)
  apply_update (sent_profile_appearance m) = apply_set (proxy_set_profile_appearance m)

  -- Whatever of these messages the service sends, where its fields are in range and an output is free,
  -- is queued behind the others as one packet, and that packet, when a plugin gets it, does to the
  -- plugin exactly what its function for that message does, whatever state the plugin is in.
  pub plugin_apply_packet-tl_send_single :
      (u : Update) (ctx : TransportLoopContext) (connection_id msg_flags : ℕ)
      → IsUpdate u
      → ctx.session.session_id < 2 ^ 32
      → msg_flags < 2 ^ 16
      → length ctx.outputs < max_outputs
      → (bytes : List ℕ) × (tl_send_single ctx connection_id (type_of u) msg_flags (encoder_of u)
          ≡ (
            true,
            record (next_sequence ctx) {
              outputs =
                  ctx.outputs
                  ++ record {
                    connection_id = connection_id;
                    length = 34 + size_of u;
                    bytes = bytes;
                  }
                    ∷ [];
            },
          ))
        × ((p : Plugin) → plugin_apply_packet F bytes (34 + size_of u) p ≡ apply_update u p)
  unfolding apply_message
  plugin_apply_packet-tl_send_single (sent_player_state m) ctx connection_id msg_flags h sid f
        free =
      sent_message F decode_msg_player_state (pa_apply_player_state F) (msg_player_state-Codes m h)
        ctx connection_id 0x0102 msg_flags sid (omega arith) f (omega arith) (omega arith) free
        (λ r q. refl)
  plugin_apply_packet-tl_send_single (sent_player_left m) ctx connection_id msg_flags h sid f free =
      sent_message F decode_msg_player_left apply_player_left (msg_player_left-Codes m h) ctx
        connection_id 0x0105 msg_flags sid (omega arith) f (omega arith) (omega arith) free
        (λ r q. refl)
  plugin_apply_packet-tl_send_single (sent_actor_spawn m) ctx connection_id msg_flags h sid f free =
      sent_message F decode_msg_actor_spawn pa_apply_actor_spawn (msg_actor_spawn-Codes m h) ctx
        connection_id 0x0201 msg_flags sid (omega arith) f (omega arith) (omega arith) free
        (λ r q. refl)
  plugin_apply_packet-tl_send_single (sent_actor_state m) ctx connection_id msg_flags h sid f free =
      sent_message F decode_msg_actor_state (pa_apply_actor_state F) (msg_actor_state-Codes m h) ctx
        connection_id 0x0202 msg_flags sid (omega arith) f (omega arith) (omega arith) free
        (λ r q. refl)
  plugin_apply_packet-tl_send_single (sent_actor_despawn m) ctx connection_id msg_flags h sid f
        free =
      sent_message F decode_msg_actor_despawn pa_apply_actor_despawn (msg_actor_despawn-Codes m h)
        ctx connection_id 0x0203 msg_flags sid (omega arith) f (omega arith) (omega arith) free
        (λ r q. refl)
  plugin_apply_packet-tl_send_single (sent_damage_result m) ctx connection_id msg_flags h sid f
        free =
      sent_message F decode_msg_damage_result (pa_apply_damage_result F)
        (msg_damage_result-Codes m h) ctx connection_id 0x0303 msg_flags sid (omega arith) f
        (omega arith) (omega arith) free (λ r q. refl)
  plugin_apply_packet-tl_send_single (sent_death_event m) ctx connection_id msg_flags h sid f free =
      sent_message F decode_msg_death_event pa_apply_death_event (msg_death_event-Codes m h) ctx
        connection_id 0x0304 msg_flags sid (omega arith) f (omega arith) (omega arith) free
        (λ r q. refl)
  plugin_apply_packet-tl_send_single (sent_object_spawn m) ctx connection_id msg_flags h sid f
        free =
      sent_message F decode_msg_object_spawn pa_apply_object_spawn (msg_object_spawn-Codes m h) ctx
        connection_id 0x0403 msg_flags sid (omega arith) f (omega arith) (omega arith) free
        (λ r q. refl)
  plugin_apply_packet-tl_send_single (sent_object_update m) ctx connection_id msg_flags h sid f
        free =
      sent_message F decode_msg_object_update pa_apply_object_update (msg_object_update-Codes m h)
        ctx connection_id 0x0406 msg_flags sid (omega arith) f (omega arith) (omega arith) free
        (λ r q. refl)
  plugin_apply_packet-tl_send_single (sent_object_despawn m) ctx connection_id msg_flags h sid f
        free =
      sent_message F decode_msg_object_despawn pa_apply_object_despawn
        (msg_object_despawn-Codes m h) ctx connection_id 0x0407 msg_flags sid (omega arith) f
        (omega arith) (omega arith) free (λ r q. refl)
  plugin_apply_packet-tl_send_single (sent_dialogue_open m) ctx connection_id msg_flags h sid f
        free =
      sent_message F decode_msg_dialogue_open pa_apply_dialogue_open (msg_dialogue_open-Codes m h)
        ctx connection_id 0x0501 msg_flags sid (omega arith) f (omega arith) (omega arith) free
        (λ r q. refl)
  plugin_apply_packet-tl_send_single (sent_dialogue_close m) ctx connection_id msg_flags h sid f
        free =
      sent_message F decode_msg_dialogue_close pa_apply_dialogue_close
        (msg_dialogue_close-Codes m h) ctx connection_id 0x0505 msg_flags sid (omega arith) f
        (omega arith) (omega arith) free (λ r q. refl)
  plugin_apply_packet-tl_send_single (sent_profile_snapshot m) ctx connection_id msg_flags h sid f
        free =
      sent_message F decode_msg_profile_snapshot (λ m. apply_set (proxy_set_profile_snapshot m))
        (msg_profile_snapshot-Codes m h) ctx connection_id 0x0006 msg_flags sid (omega arith) f
        (omega arith) (omega arith) free (λ r q. refl)
  plugin_apply_packet-tl_send_single (sent_profile_appearance m) ctx connection_id msg_flags h sid f
        free =
      sent_message F decode_msg_profile_appearance (λ m. apply_set (proxy_set_profile_appearance m))
        (msg_profile_appearance-Codes m h) ctx connection_id 0x0009 msg_flags sid (omega arith) f
        (omega arith) (omega arith) free (λ r q. refl)
