-- ===== src/Client/Apply.antt =====
-- plugin/src/protocol_apply.c: what a packet of the service does to the plugin.
use f4mp.Base.{ℕ, Bool, true, false, none, some, List, ltb, ◌==◌, if◌then◌else◌}
use f4mp.Wire.Reader.{PacketReader, R, pr_init}
use f4mp.Messages.Player.{MsgPlayerState, MsgPlayerLeft}
use f4mp.Messages.Actor.{MsgActorSpawn, MsgActorState, MsgActorDespawn}
use f4mp.Messages.Combat.{MsgDamageResult, MsgDeathEvent}
use f4mp.Messages.Workshop.{MsgObjectSpawn, MsgObjectUpdate, MsgObjectDespawn}
use f4mp.Messages.Ui.{
  MsgDialogueOpen, MsgDialogueLine, MsgDialogueChoicesHeader, MsgDialogueChoiceRecord,
  MsgDialogueClose, MsgQuestUpdateHeader, MsgQuestObjectiveRecord,
}
use f4mp.Codec.Header.{decode_packet_header, decode_message_header}
use f4mp.Codec.Control.{
  decode_msg_profile_snapshot, decode_msg_profile_items, decode_msg_profile_perks,
  decode_msg_profile_appearance,
}
use f4mp.Codec.Player.{decode_msg_player_state, decode_msg_player_left}
use f4mp.Codec.Actor.{decode_msg_actor_spawn, decode_msg_actor_state, decode_msg_actor_despawn}
use f4mp.Codec.Combat.{decode_msg_damage_result, decode_msg_death_event}
use f4mp.Codec.Workshop.{
  decode_msg_object_spawn, decode_msg_object_update, decode_msg_object_despawn,
}
use f4mp.Codec.Ui.{
  decode_msg_dialogue_open, decode_msg_dialogue_line, decode_msg_dialogue_choices,
  decode_msg_dialogue_close, decode_msg_quest_update,
}
use f4mp.Service.Floats.{Floats}
use f4mp.Service.Transport.Handle.{f4mp_validate_packet_header, f4mp_validate_message_header}
use f4mp.Client.Records.{
  ProxyActorSpawnSpec, ProxyActorUpdateSpec, ProxyRuntime, zero_proxy_actor_spawn_spec,
}
use f4mp.Client.Runtime.{
  proxy_spawn_actor, proxy_despawn_actor, proxy_spawn_object, proxy_update_object,
  proxy_despawn_object, proxy_runtime_get_actor,
}
use f4mp.Client.Events.{
  proxy_update_actor, proxy_set_damage_result, proxy_set_death_event, proxy_set_profile_snapshot,
  proxy_set_profile_items, proxy_set_profile_perks, proxy_set_profile_appearance,
  proxy_set_dialogue_open, proxy_set_dialogue_line, proxy_set_dialogue_choices,
  proxy_set_dialogue_close, proxy_set_quest_update,
}
use f4mp.Client.Scene.Records.{on_runtime}
use f4mp.Client.Manager.{Plugin, rpm_apply_remote_player_state, rpm_remove_remote_player, on_world}

-- A change of the statics of proxy_runtime.c, with its result.
abbrev pub apply_runtime : (ProxyRuntime → Bool × ProxyRuntime) → Plugin → Bool × Plugin
apply_runtime f p = on_world (on_runtime f) p

-- The setters that return nothing: `f(msg); return true;`.
abbrev pub apply_set : (ProxyRuntime → ProxyRuntime) → Plugin → Bool × Plugin
apply_set f p = apply_runtime (λ rt. (true, f rt)) p

abbrev pub actor_spawn_spec : MsgActorSpawn → ProxyActorSpawnSpec
actor_spawn_spec msg = record {
  actor_net_id = msg.actor_net_id;
  base_form_id = msg.base_form_id;
  position = msg.position;
  rotation = msg.rotation;
  actor_kind = msg.actor_kind;
  flags = msg.flags;
}

unfoldable pub pa_apply_actor_spawn : MsgActorSpawn → Plugin → Bool × Plugin
pa_apply_actor_spawn msg = apply_runtime (proxy_spawn_actor (actor_spawn_spec msg))

-- The actor that a state stands for, where it was not spawned before.
abbrev pub implied_spawn : MsgActorState → ProxyActorSpawnSpec
implied_spawn msg = record zero_proxy_actor_spawn_spec {
  actor_net_id = msg.actor_net_id;
  position = msg.position;
  rotation = msg.rotation;
}

abbrev pub actor_update_spec : MsgActorState → ProxyActorUpdateSpec
actor_update_spec msg = record {
  actor_net_id = msg.actor_net_id;
  position = msg.position;
  rotation = msg.rotation;
  health_norm = msg.health_norm;
  anim_state = msg.anim_state;
  actor_flags = msg.actor_flags;
  target_net_id = msg.target_net_id;
}

-- `if (!proxy_runtime_get_actor(id)) { ... if (!proxy_spawn_actor(&sp)) return false; }`
unfoldable pub ensure_actor : MsgActorState → ProxyRuntime → Bool × ProxyRuntime
ensure_actor msg rt = elim (proxy_runtime_get_actor rt msg.actor_net_id) [
  | none ↦ proxy_spawn_actor (implied_spawn msg) rt
  | some a ↦ (true, rt)
]

unfoldable pub pa_apply_actor_despawn : MsgActorDespawn → Plugin → Bool × Plugin
pa_apply_actor_despawn msg = apply_runtime (proxy_despawn_actor msg.actor_net_id)

unfoldable pub pa_apply_object_spawn : MsgObjectSpawn → Plugin → Bool × Plugin
pa_apply_object_spawn msg = apply_runtime (proxy_spawn_object msg)

unfoldable pub pa_apply_object_update : MsgObjectUpdate → Plugin → Bool × Plugin
pa_apply_object_update msg = apply_runtime (proxy_update_object msg)

unfoldable pub pa_apply_object_despawn : MsgObjectDespawn → Plugin → Bool × Plugin
pa_apply_object_despawn msg = apply_runtime (proxy_despawn_object msg.object_net_id)

unfoldable pub pa_apply_death_event : MsgDeathEvent → Plugin → Bool × Plugin
pa_apply_death_event msg = apply_set (proxy_set_death_event msg)

unfoldable pub pa_apply_dialogue_open : MsgDialogueOpen → Plugin → Bool × Plugin
pa_apply_dialogue_open msg = apply_set (proxy_set_dialogue_open msg)

unfoldable pub pa_apply_dialogue_line : MsgDialogueLine → List ℕ → Plugin → Bool × Plugin
pa_apply_dialogue_line msg text = apply_set (proxy_set_dialogue_line msg (some text))

unfoldable pub pa_apply_dialogue_choices :
    MsgDialogueChoicesHeader → List (MsgDialogueChoiceRecord × List ℕ) → Plugin → Bool × Plugin
pa_apply_dialogue_choices h choices = apply_set (proxy_set_dialogue_choices h choices)

unfoldable pub pa_apply_dialogue_close : MsgDialogueClose → Plugin → Bool × Plugin
pa_apply_dialogue_close msg = apply_set (proxy_set_dialogue_close msg)

unfoldable pub pa_apply_quest_update :
    MsgQuestUpdateHeader → List (MsgQuestObjectiveRecord × List ℕ) → Plugin → Bool × Plugin
pa_apply_quest_update h objs = apply_set (proxy_set_quest_update h objs)

-- `(void)rpm_remove_remote_player(msg.player_id); return true;`
unfoldable pub apply_player_left : MsgPlayerLeft → Plugin → Bool × Plugin
apply_player_left msg p = (true, (rpm_remove_remote_player msg.player_id p).1)

-- `if (!decode_...(&r, &msg)) return false;`, then what is done with the message.
unfoldable pub decoding :
    {A : Type 0} → R A → (A → Plugin → Bool × Plugin) → PacketReader → Plugin → Bool × Plugin
decoding dec apply r p = elim (dec r).0 [ none ↦ (false, p) | some a ↦ apply a p ]

module _ (F : Floats) where
  unfoldable pub pa_apply_player_state : MsgPlayerState → Plugin → Bool × Plugin
  pa_apply_player_state msg = rpm_apply_remote_player_state F msg

  unfoldable pub pa_apply_actor_state : MsgActorState → Plugin → Bool × Plugin
  pa_apply_actor_state msg = apply_runtime (λ rt.
      let (ok, rt') = ensure_actor msg rt in
      if ok then proxy_update_actor F (actor_update_spec msg) rt' else (false, rt'))

  unfoldable pub pa_apply_damage_result : MsgDamageResult → Plugin → Bool × Plugin
  pa_apply_damage_result msg = apply_set (proxy_set_damage_result F msg)

  -- The switch over the type.
  unfoldable pub apply_message : ℕ → PacketReader → Plugin → Bool × Plugin
  apply_message type r p =
      if type == 0x0006
      then decoding decode_msg_profile_snapshot (λ m. apply_set (proxy_set_profile_snapshot m)) r p
      else if type == 0x0007
      then decoding (decode_msg_profile_items 16) (λ m. apply_set (proxy_set_profile_items m.0 m.1))
          r p
      else if type == 0x0008
      then decoding (decode_msg_profile_perks 16) (λ m. apply_set (proxy_set_profile_perks m.0 m.1))
          r p
      else if type == 0x0009
      then decoding decode_msg_profile_appearance (λ m. apply_set (proxy_set_profile_appearance m))
          r p
      else if type == 0x0102
      then decoding decode_msg_player_state pa_apply_player_state r p
      else if type == 0x0105
      then decoding decode_msg_player_left apply_player_left r p
      else if type == 0x0201
      then decoding decode_msg_actor_spawn pa_apply_actor_spawn r p
      else if type == 0x0202
      then decoding decode_msg_actor_state pa_apply_actor_state r p
      else if type == 0x0203
      then decoding decode_msg_actor_despawn pa_apply_actor_despawn r p
      else if type == 0x0303
      then decoding decode_msg_damage_result pa_apply_damage_result r p
      else if type == 0x0304
      then decoding decode_msg_death_event pa_apply_death_event r p
      else if type == 0x0501
      then decoding decode_msg_dialogue_open pa_apply_dialogue_open r p
      else if type == 0x0502
      then decoding (decode_msg_dialogue_line 256) (λ m. pa_apply_dialogue_line m.0 m.1) r p
      else if type == 0x0503
      then decoding (decode_msg_dialogue_choices 12) (λ m. pa_apply_dialogue_choices m.0 m.1) r p
      else if type == 0x0505
      then decoding decode_msg_dialogue_close pa_apply_dialogue_close r p
      else if type == 0x0601
      then decoding (decode_msg_quest_update 16) (λ m. pa_apply_quest_update m.0 m.1) r p
      else if type == 0x0403
      then decoding decode_msg_object_spawn pa_apply_object_spawn r p
      else if type == 0x0406
      then decoding decode_msg_object_update pa_apply_object_update r p
      else if type == 0x0407
      then decoding decode_msg_object_despawn pa_apply_object_despawn r p
      else (false, p)

  -- The second header, once the first is read and valid.
  unfoldable pub apply_body : PacketReader → Plugin → Bool × Plugin
  apply_body r p =
      let (mh?, r') = decode_message_header r in
      elim mh? [
        | none ↦ (false, p)
        | some mh ↦
            if f4mp_validate_message_header mh then apply_message mh.type r' p else (false, p)
      ]

  unfoldable pub plugin_apply_packet : List ℕ → ℕ → Plugin → Bool × Plugin
  plugin_apply_packet bytes length p =
      let (ph?, r) = decode_packet_header (pr_init bytes length) in
      if ltb length 34 then (false, p) else elim ph? [
        | none ↦ (false, p)
        | some ph ↦ if f4mp_validate_packet_header ph then apply_body r p else (false, p)
      ]
