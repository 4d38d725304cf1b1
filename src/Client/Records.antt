-- ===== src/Client/Records.antt =====
-- plugin/include/proxy_runtime.h and plugin_proxy_actor_contract.h: the records of the plugin, and what
-- memset leaves in each. A char array is its C string.
use f4mp.Base.{ℕ, Bool, false, List, [], ◌∷◌, replicate}
use f4mp.Messages.Types.{Vec3f, Rot3f}
use f4mp.Messages.Control.{MsgProfileSnapshot, MsgProfileAppearance}
use f4mp.Messages.Combat.{MsgDamageResult, MsgDeathEvent}
use f4mp.Service.Zero.{zero_vec, zero_rot}
use f4mp.Client.Table.{Keyed}

abbrev pub plugin_max_proxy_players : ℕ
plugin_max_proxy_players = 8

abbrev pub plugin_max_proxy_actors : ℕ
plugin_max_proxy_actors = 128

abbrev pub plugin_max_proxy_objects : ℕ
plugin_max_proxy_objects = 256

pub record ProxyPlayerSpawnSpec : Type 0 where
  pub player_id : ℕ
  pub proxy_net_id : ℕ
  pub proxy_base_form_id : ℕ
  pub position : Vec3f
  pub rotation : Rot3f
  pub equipped_form_id : ℕ

abbrev pub zero_proxy_player_spawn_spec : ProxyPlayerSpawnSpec
zero_proxy_player_spawn_spec = record {
  player_id = 0;
  proxy_net_id = 0;
  proxy_base_form_id = 0;
  position = zero_vec;
  rotation = zero_rot;
  equipped_form_id = 0;
}

pub record ProxyPlayerUpdateSpec : Type 0 where
  pub player_id : ℕ
  pub position : Vec3f
  pub rotation : Rot3f
  pub velocity : Vec3f
  pub stance : ℕ
  pub anim_state : ℕ
  pub equipped_form_id : ℕ

abbrev pub zero_proxy_player_update_spec : ProxyPlayerUpdateSpec
zero_proxy_player_update_spec = record {
  player_id = 0;
  position = zero_vec;
  rotation = zero_rot;
  velocity = zero_vec;
  stance = 0;
  anim_state = 0;
  equipped_form_id = 0;
}

pub record ProxyActorSpawnSpec : Type 0 where
  pub actor_net_id : ℕ
  pub base_form_id : ℕ
  pub position : Vec3f
  pub rotation : Rot3f
  pub actor_kind : ℕ
  pub flags : ℕ

abbrev pub zero_proxy_actor_spawn_spec : ProxyActorSpawnSpec
zero_proxy_actor_spawn_spec = record {
  actor_net_id = 0;
  base_form_id = 0;
  position = zero_vec;
  rotation = zero_rot;
  actor_kind = 0;
  flags = 0;
}

pub record ProxyActorUpdateSpec : Type 0 where
  pub actor_net_id : ℕ
  pub position : Vec3f
  pub rotation : Rot3f
  pub health_norm : ℕ
  pub anim_state : ℕ
  pub actor_flags : ℕ
  pub target_net_id : ℕ

abbrev pub zero_proxy_actor_update_spec : ProxyActorUpdateSpec
zero_proxy_actor_update_spec = record {
  actor_net_id = 0;
  position = zero_vec;
  rotation = zero_rot;
  health_norm = 0;
  anim_state = 0;
  actor_flags = 0;
  target_net_id = 0;
}

abbrev zero_profile_snapshot : MsgProfileSnapshot
zero_profile_snapshot = record {
  level = 0;
  xp = 0;
  equipped_form_id = 0;
  caps = 0;
  str_stat = 0;
  per_stat = 0;
  end_stat = 0;
  cha_stat = 0;
  int_stat = 0;
  agi_stat = 0;
  luk_stat = 0;
  reserved0 = 0;
}

abbrev zero_profile_appearance : MsgProfileAppearance
zero_profile_appearance = record { sex = 0; reserved0 = 0 ∷ 0 ∷ 0 ∷ []; body_preset = 0 }

abbrev zero_damage_result : MsgDamageResult
zero_damage_result = record {
  attacker_id = 0;
  victim_actor_net_id = 0;
  damage_amount = 0;
  damage_type = 0;
  reserved0 = 0;
  flags = 0;
  health_after = 0;
}

abbrev zero_death_event : MsgDeathEvent
zero_death_event = record { victim_actor_net_id = 0; killer_id = 0; ragdoll_seed = 0 }

pub record ProxyPlayerRecord : Type 0 where
  pub in_use : Bool
  pub player_id : ℕ
  pub proxy_net_id : ℕ
  pub proxy_base_form_id : ℕ
  pub position : Vec3f
  pub rotation : Rot3f
  pub velocity : Vec3f
  pub stance : ℕ
  pub anim_state : ℕ
  pub equipped_form_id : ℕ
  pub last_state_sequence : ℕ
  pub last_observed_tick : ℕ

abbrev pub zero_proxy_player_record : ProxyPlayerRecord
zero_proxy_player_record = record {
  in_use = false;
  player_id = 0;
  proxy_net_id = 0;
  proxy_base_form_id = 0;
  position = zero_vec;
  rotation = zero_rot;
  velocity = zero_vec;
  stance = 0;
  anim_state = 0;
  equipped_form_id = 0;
  last_state_sequence = 0;
  last_observed_tick = 0;
}

pub record ProxyActorRecord : Type 0 where
  pub in_use : Bool
  pub actor_net_id : ℕ
  pub base_form_id : ℕ
  pub actor_kind : ℕ
  pub flags : ℕ
  pub position : Vec3f
  pub rotation : Rot3f
  pub health_norm : ℕ
  pub anim_state : ℕ
  pub actor_flags : ℕ
  pub target_net_id : ℕ
  pub is_dead : Bool
  pub last_damage_from : ℕ
  pub last_damage_amount : ℕ

abbrev pub zero_proxy_actor_record : ProxyActorRecord
zero_proxy_actor_record = record {
  in_use = false;
  actor_net_id = 0;
  base_form_id = 0;
  actor_kind = 0;
  flags = 0;
  position = zero_vec;
  rotation = zero_rot;
  health_norm = 0;
  anim_state = 0;
  actor_flags = 0;
  target_net_id = 0;
  is_dead = false;
  last_damage_from = 0;
  last_damage_amount = 0;
}

pub record ProxyObjectRecord : Type 0 where
  pub in_use : Bool
  pub object_net_id : ℕ
  pub form_id : ℕ
  pub position : Vec3f
  pub rotation : Rot3f
  pub state_flags : ℕ

abbrev pub zero_proxy_object_record : ProxyObjectRecord
zero_proxy_object_record = record {
  in_use = false;
  object_net_id = 0;
  form_id = 0;
  position = zero_vec;
  rotation = zero_rot;
  state_flags = 0;
}

pub record ProxyProfileItemState : Type 0 where
  pub form_id : ℕ
  pub count : ℕ
  pub equipped : ℕ

abbrev pub zero_proxy_profile_item_state : ProxyProfileItemState
zero_proxy_profile_item_state = record { form_id = 0; count = 0; equipped = 0 }

pub record ProxyProfilePerkState : Type 0 where
  pub perk_form_id : ℕ
  pub rank : ℕ

abbrev pub zero_proxy_profile_perk_state : ProxyProfilePerkState
zero_proxy_profile_perk_state = record { perk_form_id = 0; rank = 0 }

pub record ProxyProfileState : Type 0 where
  pub loaded : Bool
  pub snapshot : MsgProfileSnapshot
  pub item_count : ℕ
  pub items : List ProxyProfileItemState
  pub perk_count : ℕ
  pub perks : List ProxyProfilePerkState
  pub appearance : MsgProfileAppearance

abbrev pub zero_proxy_profile_state : ProxyProfileState
zero_proxy_profile_state = record {
  loaded = false;
  snapshot = zero_profile_snapshot;
  item_count = 0;
  items = replicate 16 zero_proxy_profile_item_state;
  perk_count = 0;
  perks = replicate 16 zero_proxy_profile_perk_state;
  appearance = zero_profile_appearance;
}

pub record ProxyDialogueChoiceState : Type 0 where
  pub choice_id : ℕ
  pub enabled : ℕ
  pub text : List ℕ

abbrev pub zero_proxy_dialogue_choice_state : ProxyDialogueChoiceState
zero_proxy_dialogue_choice_state = record { choice_id = 0; enabled = 0; text = [] }

pub record ProxyDialogueState : Type 0 where
  pub active : Bool
  pub dialogue_id : ℕ
  pub npc_actor_net_id : ℕ
  pub speaker_actor_net_id : ℕ
  pub current_line : List ℕ
  pub choice_count : ℕ
  pub choices : List ProxyDialogueChoiceState
  pub last_selected_choice_id : ℕ
  pub close_reason : ℕ

abbrev pub zero_proxy_dialogue_state : ProxyDialogueState
zero_proxy_dialogue_state = record {
  active = false;
  dialogue_id = 0;
  npc_actor_net_id = 0;
  speaker_actor_net_id = 0;
  current_line = [];
  choice_count = 0;
  choices = replicate 12 zero_proxy_dialogue_choice_state;
  last_selected_choice_id = 0;
  close_reason = 0;
}

pub record ProxyQuestObjectiveState : Type 0 where
  pub objective_id : ℕ
  pub state : ℕ
  pub text : List ℕ

abbrev pub zero_proxy_quest_objective_state : ProxyQuestObjectiveState
zero_proxy_quest_objective_state = record { objective_id = 0; state = 0; text = [] }

pub record ProxyQuestState : Type 0 where
  pub loaded : Bool
  pub quest_id : ℕ
  pub stage : ℕ
  pub tracked : ℕ
  pub objective_count : ℕ
  pub objectives : List ProxyQuestObjectiveState

abbrev pub zero_proxy_quest_state : ProxyQuestState
zero_proxy_quest_state = record {
  loaded = false;
  quest_id = 0;
  stage = 0;
  tracked = 0;
  objective_count = 0;
  objectives = replicate 16 zero_proxy_quest_objective_state;
}

pub record ProxyCombatState : Type 0 where
  pub loaded : Bool
  pub last_damage : MsgDamageResult
  pub has_last_death : Bool
  pub last_death : MsgDeathEvent

abbrev pub zero_proxy_combat_state : ProxyCombatState
zero_proxy_combat_state = record {
  loaded = false;
  last_damage = zero_damage_result;
  has_last_death = false;
  last_death = zero_death_event;
}

-- The statics of proxy_runtime.c.
pub record ProxyRuntime : Type 0 where
  pub players : List ProxyPlayerRecord
  pub actors : List ProxyActorRecord
  pub objects : List ProxyObjectRecord
  pub profile : ProxyProfileState
  pub combat : ProxyCombatState
  pub dialogue : ProxyDialogueState
  pub quest : ProxyQuestState

instance unfoldable pub player_keyed : Keyed ProxyPlayerRecord
player_keyed = record { in_use = λ s. s.in_use; key = λ s. s.player_id }

instance unfoldable pub actor_keyed : Keyed ProxyActorRecord
actor_keyed = record { in_use = λ s. s.in_use; key = λ s. s.actor_net_id }

instance unfoldable pub object_keyed : Keyed ProxyObjectRecord
object_keyed = record { in_use = λ s. s.in_use; key = λ s. s.object_net_id }
