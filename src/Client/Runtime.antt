-- ===== src/Client/Runtime.antt =====
-- plugin/src/proxy_runtime.c: the tables of remote players, actors and objects, and what the service
-- last said of the profile, combat, dialogue and quest. Every function that writes the statics returns
-- them; a char array is its C string, so strncpy with one byte to spare is `take 255`.
pub mod Refines
pub mod Runs
use f4mp.Base.{
  ℕ, Bool, true, false, not, ◌&&◌, ◌||◌, Option, none, some, List, [], ◌∷◌, ◌==◌, ltb,
  if◌then◌else◌, take, replicate,
}
use f4mp.Messages.Control.{
  MsgProfileSnapshot, MsgProfileItemsHeader, MsgProfileItemRecord, MsgProfilePerksHeader,
  MsgProfilePerkRecord, MsgProfileAppearance,
}
use f4mp.Messages.Combat.{MsgDamageResult, MsgDeathEvent}
use f4mp.Messages.Workshop.{MsgObjectSpawn, MsgObjectUpdate}
use f4mp.Messages.Ui.{
  MsgDialogueOpen, MsgDialogueLine, MsgDialogueChoicesHeader, MsgDialogueChoiceRecord,
  MsgDialogueSelect, MsgDialogueClose, MsgQuestUpdateHeader, MsgQuestObjectiveRecord,
}
use f4mp.Service.Floats.{Floats}
use f4mp.Service.Quest.{has_bit}
use f4mp.Client.Table.{get, used_count, put_slot, change_slot, clear_slot}
use f4mp.Client.Records.{
  ProxyPlayerSpawnSpec, ProxyPlayerUpdateSpec, ProxyActorSpawnSpec, ProxyActorUpdateSpec,
  ProxyPlayerRecord, ProxyActorRecord, ProxyObjectRecord, ProxyProfileItemState,
  ProxyProfilePerkState, ProxyDialogueChoiceState, ProxyDialogueState, ProxyQuestObjectiveState,
  ProxyRuntime, player_keyed, actor_keyed, object_keyed, zero_proxy_player_record,
  zero_proxy_actor_record, zero_proxy_object_record, zero_proxy_profile_state,
  zero_proxy_combat_state, zero_proxy_dialogue_state, zero_proxy_quest_state,
  plugin_max_proxy_players, plugin_max_proxy_actors, plugin_max_proxy_objects,
}

unfoldable pub proxy_runtime_init : ProxyRuntime
proxy_runtime_init = record {
  players = replicate plugin_max_proxy_players zero_proxy_player_record;
  actors = replicate plugin_max_proxy_actors zero_proxy_actor_record;
  objects = replicate plugin_max_proxy_objects zero_proxy_object_record;
  profile = zero_proxy_profile_state;
  combat = zero_proxy_combat_state;
  dialogue = zero_proxy_dialogue_state;
  quest = zero_proxy_quest_state;
}

-- The record that a spawn puts into its slot.
abbrev pub player_of_spawn : ProxyPlayerSpawnSpec → ProxyPlayerRecord
player_of_spawn spec = record zero_proxy_player_record {
  in_use = true;
  player_id = spec.player_id;
  proxy_net_id = spec.proxy_net_id;
  proxy_base_form_id = spec.proxy_base_form_id;
  position = spec.position;
  rotation = spec.rotation;
  equipped_form_id = spec.equipped_form_id;
}

abbrev pub player_of_update : ProxyPlayerUpdateSpec → ProxyPlayerRecord → ProxyPlayerRecord
player_of_update spec s = record s {
  position = spec.position;
  rotation = spec.rotation;
  velocity = spec.velocity;
  stance = spec.stance;
  anim_state = spec.anim_state;
  equipped_form_id = spec.equipped_form_id;
  last_state_sequence = 0;
  last_observed_tick = 0;
}

unfoldable pub proxy_spawn_player : ProxyPlayerSpawnSpec → ProxyRuntime → Bool × ProxyRuntime
proxy_spawn_player spec rt =
    let (ok, players) = put_slot spec.player_id (player_of_spawn spec) rt.players in
    (ok, record rt { players = players })

unfoldable pub proxy_update_player : ProxyPlayerUpdateSpec → ProxyRuntime → Bool × ProxyRuntime
proxy_update_player spec rt =
    let (ok, players) = change_slot spec.player_id (player_of_update spec) rt.players in
    (ok, record rt { players = players })

unfoldable pub proxy_despawn_player : ℕ → ProxyRuntime → Bool × ProxyRuntime
proxy_despawn_player player_id rt =
    let (ok, players) = clear_slot player_id zero_proxy_player_record rt.players in
    (ok, record rt { players = players })

-- `1.0f`
abbrev pub float_one : ℕ
float_one = 0x3f80_0000

abbrev pub actor_of_spawn : ProxyActorSpawnSpec → ProxyActorRecord
actor_of_spawn spec = record zero_proxy_actor_record {
  in_use = true;
  actor_net_id = spec.actor_net_id;
  base_form_id = spec.base_form_id;
  position = spec.position;
  rotation = spec.rotation;
  actor_kind = spec.actor_kind;
  flags = spec.flags;
  health_norm = float_one;
}

unfoldable pub proxy_spawn_actor : ProxyActorSpawnSpec → ProxyRuntime → Bool × ProxyRuntime
proxy_spawn_actor spec rt =
    let (ok, actors) = put_slot spec.actor_net_id (actor_of_spawn spec) rt.actors in
    (ok, record rt { actors = actors })

-- The dialogue ends where the actor speaks in it.
unfoldable pub interrupt : ℕ → ProxyDialogueState → ProxyDialogueState
interrupt actor_net_id d =
    if d.active && (d.npc_actor_net_id == actor_net_id || d.speaker_actor_net_id == actor_net_id)
    then record d { active = false; close_reason = 2; choice_count = 0; current_line = [] }
    else d

unfoldable pub proxy_despawn_actor : ℕ → ProxyRuntime → Bool × ProxyRuntime
proxy_despawn_actor actor_net_id rt =
    let (ok, actors) = clear_slot actor_net_id zero_proxy_actor_record rt.actors in
    (
      ok,
      record rt {
        actors = actors;
        dialogue = if ok then interrupt actor_net_id rt.dialogue else rt.dialogue;
      },
    )

abbrev pub object_of_spawn : MsgObjectSpawn → ProxyObjectRecord
object_of_spawn msg = record {
  in_use = true;
  object_net_id = msg.object_net_id;
  form_id = msg.form_id;
  position = msg.position;
  rotation = msg.rotation;
  state_flags = msg.state_flags;
}

abbrev pub object_of_update : MsgObjectUpdate → ProxyObjectRecord → ProxyObjectRecord
object_of_update msg s = record s {
  position = if has_bit msg.fields_mask 1 then msg.position else s.position;
  rotation = if has_bit msg.fields_mask 2 then msg.rotation else s.rotation;
  state_flags = if has_bit msg.fields_mask 4 then msg.state_flags else s.state_flags;
}

unfoldable pub proxy_spawn_object : MsgObjectSpawn → ProxyRuntime → Bool × ProxyRuntime
proxy_spawn_object msg rt =
    let (ok, objects) = put_slot msg.object_net_id (object_of_spawn msg) rt.objects in
    (ok, record rt { objects = objects })

unfoldable pub proxy_update_object : MsgObjectUpdate → ProxyRuntime → Bool × ProxyRuntime
proxy_update_object msg rt =
    let (ok, objects) = change_slot msg.object_net_id (object_of_update msg) rt.objects in
    (ok, record rt { objects = objects })

unfoldable pub proxy_despawn_object : ℕ → ProxyRuntime → Bool × ProxyRuntime
proxy_despawn_object object_net_id rt =
    let (ok, objects) = clear_slot object_net_id zero_proxy_object_record rt.objects in
    (ok, record rt { objects = objects })

unfoldable pub proxy_runtime_player_count : ProxyRuntime → ℕ
proxy_runtime_player_count rt = used_count rt.players

unfoldable pub proxy_runtime_actor_count : ProxyRuntime → ℕ
proxy_runtime_actor_count rt = used_count rt.actors

unfoldable pub proxy_runtime_object_count : ProxyRuntime → ℕ
proxy_runtime_object_count rt = used_count rt.objects

unfoldable pub proxy_runtime_get_player : ProxyRuntime → ℕ → Option ProxyPlayerRecord
proxy_runtime_get_player rt player_id = get player_id rt.players

unfoldable pub proxy_runtime_get_actor : ProxyRuntime → ℕ → Option ProxyActorRecord
proxy_runtime_get_actor rt actor_net_id = get actor_net_id rt.actors

unfoldable pub proxy_runtime_get_object : ProxyRuntime → ℕ → Option ProxyObjectRecord
proxy_runtime_get_object rt object_net_id = get object_net_id rt.objects
