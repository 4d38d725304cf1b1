-- ===== src/Service/State.antt =====
-- service/src/service_state_models.h, player_state_relay_policy.h and world_trace_provider.h: what the
-- service keeps. An array is a list, a char array the C string in it, and a float its bits.
use f4mp.Base.{ℕ, Bool, Option, List}
use f4mp.Messages.Types.{Vec3f, Rot3f}
use f4mp.Messages.Player.{MsgPlayerState}
use f4mp.Messages.Actor.{MsgActorState}

pub record PlayerProfileRef : Type 0 where
  pub player_guid : List ℕ
  pub display_name : List ℕ

pub record PlayerProfileItemSnapshot : Type 0 where
  pub form_id : ℕ
  pub count : ℕ
  pub equipped : ℕ

pub record PlayerProfilePerkSnapshot : Type 0 where
  pub perk_form_id : ℕ
  pub rank : ℕ

pub record PlayerProfileSnapshot : Type 0 where
  pub loaded : Bool
  pub level : ℕ
  pub xp : ℕ
  pub equipped_form_id : ℕ
  pub caps : ℕ
  pub str_stat : ℕ
  pub per_stat : ℕ
  pub end_stat : ℕ
  pub cha_stat : ℕ
  pub int_stat : ℕ
  pub agi_stat : ℕ
  pub luk_stat : ℕ
  pub item_count : ℕ
  pub items : List PlayerProfileItemSnapshot
  pub perk_count : ℕ
  pub perks : List PlayerProfilePerkSnapshot
  pub sex : ℕ
  pub body_preset : ℕ

pub record PlayerStateRelayStats : Type 0 where
  pub accepted_count : ℕ
  pub rejected_stale_count : ℕ
  pub rejected_regressive_tick_count : ℕ
  pub last_sequence : ℕ
  pub last_observed_tick : ℕ

pub record PlayerRuntimeState : Type 0 where
  pub connected : Bool
  pub player_id : ℕ
  pub connection_id : ℕ
  pub replicated_state : MsgPlayerState
  pub last_authoritative_position : Vec3f
  pub last_authoritative_rotation : Rot3f
  pub last_input_tick : ℕ
  pub last_recv_sequence : ℕ
  pub last_sent_sequence : ℕ
  pub last_heard_tick : ℕ
  pub relay_stats : PlayerStateRelayStats
  pub bubble_violation_active : Bool
  pub bubble_violation_mode : ℕ
  pub profile_ref : PlayerProfileRef
  pub profile_snapshot : PlayerProfileSnapshot

pub record ActorRuntimeState : Type 0 where
  pub in_use : Bool
  pub actor_net_id : ℕ
  pub base_form_id : ℕ
  pub replicated_state : MsgActorState
  pub actor_kind : ℕ
  pub spawn_flags : ℕ
  pub authority_owned_by_host : Bool
  pub pending_despawn : Bool

pub record ObjectRuntimeState : Type 0 where
  pub in_use : Bool
  pub object_net_id : ℕ
  pub form_id : ℕ
  pub settlement_id : ℕ
  pub position : Vec3f
  pub rotation : Rot3f
  pub state_flags : ℕ
  pub owner_player_id : ℕ
  pub pending_despawn : Bool

pub record SettlementState : Type 0 where
  pub in_use : Bool
  pub settlement_id : ℕ
  pub center : Vec3f
  pub allowed_radius : ℕ
  pub object_count : ℕ
  pub object_budget : ℕ

pub record BubbleState : Type 0 where
  pub center : Vec3f
  pub radius : ℕ
  pub cell_count : ℕ
  pub cells : List ℕ

pub record SessionDialogueChoiceState : Type 0 where
  pub choice_id : ℕ
  pub enabled : ℕ
  pub text : List ℕ

pub record SessionDialogueState : Type 0 where
  pub active : Bool
  pub dialogue_id : ℕ
  pub npc_actor_net_id : ℕ
  pub speaker_actor_net_id : ℕ
  pub current_line : List ℕ
  pub choice_count : ℕ
  pub choices : List SessionDialogueChoiceState
  pub last_selected_choice_id : ℕ
  pub last_selected_by_player : ℕ
  pub close_reason : ℕ

pub record SessionQuestObjectiveState : Type 0 where
  pub objective_id : ℕ
  pub state : ℕ
  pub text : List ℕ

pub record SessionQuestState : Type 0 where
  pub loaded : Bool
  pub quest_id : ℕ
  pub stage : ℕ
  pub tracked : ℕ
  pub objective_count : ℕ
  pub objectives : List SessionQuestObjectiveState

pub record TraceHitResult : Type 0 where
  pub blocked : Bool
  pub hit_fraction : ℕ

-- The callback's return value and what it leaves in `*out_hit`, which it is given as the third argument.
abbrev pub WorldTraceFn : Type 0
WorldTraceFn = Vec3f → Vec3f → TraceHitResult → Bool × TraceHitResult

-- `user` is a part of the function.
pub record WorldTraceProvider : Type 0 where
  pub trace_fn : Option WorldTraceFn
  pub default_clear_when_unset : Bool

pub record SessionState : Type 0 where
  pub in_use : Bool
  pub session_id : ℕ
  pub rules : ℕ
  pub tick_rate : ℕ
  pub session_seed : ℕ
  pub host_player_id : ℕ
  pub connected_count : ℕ
  pub bubble : BubbleState
  pub trace_provider : WorldTraceProvider
  pub dialogue : SessionDialogueState
  pub quest : SessionQuestState
  pub players : List PlayerRuntimeState
  pub actors : List ActorRuntimeState
  pub objects : List ObjectRuntimeState
  pub settlements : List SettlementState
