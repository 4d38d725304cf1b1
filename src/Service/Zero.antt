-- ===== src/Service/Zero.antt =====
-- What `memset(p, 0, sizeof(*p))` leaves in each struct of service/src/service_state_models.h, with the
-- array sizes that header defines.
use f4mp.Base.{ℕ, false, [], ◌∷◌, replicate}
use f4mp.Messages.Types.{Vec3f, Rot3f}
use f4mp.Messages.Player.{MsgPlayerState}
use f4mp.Messages.Actor.{MsgActorState}
use f4mp.Service.State.{
  PlayerProfileItemSnapshot, PlayerProfilePerkSnapshot, PlayerProfileSnapshot,
  PlayerStateRelayStats, PlayerRuntimeState, ActorRuntimeState, ObjectRuntimeState, SettlementState,
  BubbleState, SessionDialogueChoiceState, SessionDialogueState, SessionQuestObjectiveState,
  SessionQuestState,
}

abbrev pub max_players_per_session : ℕ
max_players_per_session = 8

abbrev pub max_actors_per_session : ℕ
max_actors_per_session = 4096

abbrev pub max_objects_per_session : ℕ
max_objects_per_session = 8192

abbrev pub max_settlements : ℕ
max_settlements = 64

abbrev pub max_profile_items : ℕ
max_profile_items = 16

abbrev pub max_profile_perks : ℕ
max_profile_perks = 16

abbrev pub max_dialogue_choices : ℕ
max_dialogue_choices = 12

abbrev pub max_quest_objectives : ℕ
max_quest_objectives = 16

abbrev pub zero_vec : Vec3f
zero_vec = record { x = 0; y = 0; z = 0 }

abbrev pub zero_rot : Rot3f
zero_rot = record { pitch = 0; yaw = 0; roll = 0 }

abbrev pub zero_player_state : MsgPlayerState
zero_player_state = record {
  player_id = 0;
  reserved = 0;
  position = zero_vec;
  rotation = zero_rot;
  velocity = zero_vec;
  stance = 0;
  reserved2 = 0 ∷ 0 ∷ 0 ∷ [];
  anim_state = 0;
  reserved3 = 0;
  equipped_form_id = 0;
  state_sequence = 0;
  observed_tick = 0;
}

abbrev pub zero_actor_state : MsgActorState
zero_actor_state = record {
  actor_net_id = 0;
  position = zero_vec;
  rotation = zero_rot;
  health_norm = 0;
  anim_state = 0;
  actor_flags = 0;
  target_net_id = 0;
}

abbrev pub zero_item : PlayerProfileItemSnapshot
zero_item = record { form_id = 0; count = 0; equipped = 0 }

abbrev pub zero_perk : PlayerProfilePerkSnapshot
zero_perk = record { perk_form_id = 0; rank = 0 }

abbrev pub zero_profile : PlayerProfileSnapshot
zero_profile = record {
  loaded = false;
  level = 0;
  xp = 0;
  equipped_form_id = 0;
  caps = 0;
  str_stat = 0;
  per_stat = 0;
  end_stat = 0;
  cha_stat = 0;
  int_stat = 0;
  agi_stat = 0;
  luk_stat = 0;
  item_count = 0;
  items = replicate max_profile_items zero_item;
  perk_count = 0;
  perks = replicate max_profile_perks zero_perk;
  sex = 0;
  body_preset = 0;
}

abbrev pub zero_relay_stats : PlayerStateRelayStats
zero_relay_stats = record {
  accepted_count = 0;
  rejected_stale_count = 0;
  rejected_regressive_tick_count = 0;
  last_sequence = 0;
  last_observed_tick = 0;
}

abbrev pub zero_player : PlayerRuntimeState
zero_player = record {
  connected = false;
  player_id = 0;
  connection_id = 0;
  replicated_state = zero_player_state;
  last_authoritative_position = zero_vec;
  last_authoritative_rotation = zero_rot;
  last_input_tick = 0;
  last_recv_sequence = 0;
  last_sent_sequence = 0;
  last_heard_tick = 0;
  relay_stats = zero_relay_stats;
  bubble_violation_active = false;
  bubble_violation_mode = 0;
  profile_ref = record { player_guid = []; display_name = [] };
  profile_snapshot = zero_profile;
}

abbrev pub zero_actor : ActorRuntimeState
zero_actor = record {
  in_use = false;
  actor_net_id = 0;
  base_form_id = 0;
  replicated_state = zero_actor_state;
  actor_kind = 0;
  spawn_flags = 0;
  authority_owned_by_host = false;
  pending_despawn = false;
}

abbrev pub zero_object : ObjectRuntimeState
zero_object = record {
  in_use = false;
  object_net_id = 0;
  form_id = 0;
  settlement_id = 0;
  position = zero_vec;
  rotation = zero_rot;
  state_flags = 0;
  owner_player_id = 0;
  pending_despawn = false;
}

abbrev pub zero_settlement : SettlementState
zero_settlement = record {
  in_use = false;
  settlement_id = 0;
  center = zero_vec;
  allowed_radius = 0;
  object_count = 0;
  object_budget = 0;
}

abbrev pub zero_choice : SessionDialogueChoiceState
zero_choice = record { choice_id = 0; enabled = 0; text = [] }

abbrev pub zero_dialogue : SessionDialogueState
zero_dialogue = record {
  active = false;
  dialogue_id = 0;
  npc_actor_net_id = 0;
  speaker_actor_net_id = 0;
  current_line = [];
  choice_count = 0;
  choices = replicate max_dialogue_choices zero_choice;
  last_selected_choice_id = 0;
  last_selected_by_player = 0;
  close_reason = 0;
}

abbrev pub zero_objective : SessionQuestObjectiveState
zero_objective = record { objective_id = 0; state = 0; text = [] }

abbrev pub zero_quest : SessionQuestState
zero_quest = record {
  loaded = false;
  quest_id = 0;
  stage = 0;
  tracked = 0;
  objective_count = 0;
  objectives = replicate max_quest_objectives zero_objective;
}

abbrev pub zero_bubble : BubbleState
zero_bubble = record { center = zero_vec; radius = 0; cell_count = 0; cells = replicate 128 0 }
