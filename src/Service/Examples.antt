-- ===== src/Service/Examples.antt =====
-- A session with two players, a hostile, a settlement and an object of it, and what the theorems say of
-- it.
use f4mp.Base.{
  ℕ, ◌+◌, ◌-◌, ◌*◌, ◌/◌, ◌%◌, ◌^◌, ◌≡◌, ◌≢◌, ◌⊎◌, ◌↔◌, ◌≤◌, ◌<◌, refl, true, false, none, some,
  List, [], ◌∷◌, ◌==◌, ltb, leb, if◌then◌else◌, arith, All, replicate, take,
}
use f4mp.Messages.Player.{MsgPlayerState}
use f4mp.Messages.Combat.{MsgFireIntent, MsgDamageResult}
use f4mp.Messages.Workshop.{MsgBuildRequest}
use f4mp.Messages.Ui.{MsgDialogueSelect, MsgQuestUpdateHeader, MsgQuestObjectiveRecord}
use f4mp.Service.Floats.{Floats}
use f4mp.Service.State.{SessionState, SettlementState}
use f4mp.Service.Zero.{
  zero_vec, zero_rot, zero_player, zero_player_state, zero_actor, zero_actor_state, zero_object,
  zero_settlement, zero_dialogue, zero_quest, zero_bubble, zero_choice, zero_objective,
  zero_relay_stats,
}
use f4mp.Service.Store.{
  find_player, find_object, find_settlement, is_player, is_object, is_settlement, free_object,
  ws_alloc_object,
}
use f4mp.Service.Slots.{find_first, update_first, is_some}
use f4mp.Service.Relay.{psr_evaluate, reject, accept, is_stale, is_regressive}
use f4mp.Service.Relay.Order
use f4mp.Service.Relay.Order.{accepted-Rises, psr_evaluate_twice, Rises}
use f4mp.Service.Quest.{
  quest_update, store_quest, qmp_validate_update, check_objectives, objective_state_valid,
  allows_objective, objective_transition_valid,
}
use f4mp.Service.Quest.Progress.{quest_run, quest_update-Follows, quest_run-stage, Follows}
use f4mp.Service.Dialogue.{
  accepted, DialogueProgressionOutput, dpp_apply_selection, progress, advance, dsp_apply_selection,
  dsp_validate_selection, find_choice, selected_text,
}
use f4mp.Service.Dialogue.Selection.{
  Accepts, dsp_validate_selection-accepted, dpp_apply_selection_once,
}
use f4mp.Service.Sessions.{
  Registry, zero_entry, sr_find_player_id, sr_bind_player, has_guid, free_entry, same_string,
}
use f4mp.Service.Sessions.Registry.{
  sr_find_player_id-sr_bind_player, sr_find_player_id-sr_bind_player_other, sr_bind_player_long,
}
use f4mp.Service.Validation.{
  validate_fire_intent, validate_build_request, validate_player_connected, in_settlement,
  snap_valid, workshop_whitelist_contains, workshop_whitelist_lookup,
}
use f4mp.Service.Geometry.{distance_sq, sqrf}
use f4mp.Service.Authority.{
  FireResult, Authority, ac_handle_build_request, ac_handle_fire_intent, build_denied,
}
use f4mp.Service.Authority.Build.{
  build, ac_handle_build_request-accepted, ac_handle_build_request-denied, workshop_run,
  workshop_run-IsWithinBudget, IsWithinBudget, one_more, placed,
}
use f4mp.Service.Authority.Fire.{ac_handle_fire_intent-IsShot, IsShot, IsMiss}

-- Numbers in the place of floats.
abbrev pub whole : Floats
whole = record {
  add = λ a b. a + b;
  sub = λ a b. a - b;
  mul = λ a b. a * b;
  div = λ a b. if b == 0 then 0 else a / b;
  sqrt = λ a. a;
  lt = ltb;
  le = leb;
}

abbrev pub session : SessionState
session = record {
  in_use = true;
  session_id = 7;
  rules = 255;
  tick_rate = 30;
  session_seed = 0;
  host_player_id = 1;
  connected_count = 2;
  bubble = record zero_bubble { radius = 100 };
  trace_provider = record { trace_fn = none; default_clear_when_unset = true };
  dialogue = record zero_dialogue {
    active = true;
    dialogue_id = 5;
    choice_count = 2;
    choices =
        record zero_choice { choice_id = 1; enabled = 1; text = 89 ∷ [] }
        ∷ record zero_choice { choice_id = 2 }
        ∷ [];
  };
  quest = record zero_quest {
    loaded = true;
    quest_id = 9;
    stage = 10;
    objective_count = 1;
    objectives = record zero_objective { objective_id = 1 } ∷ [];
  };
  players =
      record zero_player { connected = true; player_id = 1; connection_id = 41 }
      ∷ record zero_player { connected = true; player_id = 2; connection_id = 42 }
      ∷ [];
  actors =
      record zero_actor {
        in_use = true;
        actor_net_id = 90;
        replicated_state = record zero_actor_state {
          actor_net_id = 90;
          actor_flags = 1;
          health_norm = 0x3e80_0000;
          position = record zero_vec { x = 500 };
        };
      }
      ∷ zero_actor
      ∷ [];
  objects = zero_object ∷ zero_object ∷ [];
  settlements =
      record zero_settlement {
        in_use = true;
        settlement_id = 3;
        allowed_radius = 10;
        object_budget = 2;
      }
      ∷ [];
}

abbrev authority : Authority
authority = record {
  session = session;
  next_object_id = 1000;
  next_actor_id = 500;
  whitelist =
      record {
        form_id = 77;
        editor_id = [];
        movable = true;
        scrappable = true;
        snap_enabled = false;
        animated = false;
        scripted = false;
      }
      ∷ [];
}

abbrev request : MsgBuildRequest
request = record {
  request_id = 1;
  player_id = 2;
  reserved0 = 0;
  settlement_id = 3;
  form_id = 77;
  position = zero_vec;
  rotation = zero_rot;
  snap_target_net_id = 0;
}

abbrev shot : MsgFireIntent
shot = record {
  player_id = 1;
  reserved0 = 0;
  weapon_form_id = 4;
  origin = zero_vec;
  direction = record zero_vec { x = 65536 };
  mode = 0;
  reserved1 = [];
  fire_flags = 0;
}

abbrev no_damage : MsgDamageResult
no_damage = record {
  attacker_id = 0;
  victim_actor_net_id = 0;
  damage_amount = 0;
  damage_type = 0;
  reserved0 = 0;
  flags = 0;
  health_after = 0;
}

build_ok : (ac_handle_build_request whole authority request).0.accepted ≡ 1
unfolding ac_handle_build_request ws_alloc_object validate_build_request validate_player_connected
    in_settlement snap_valid workshop_whitelist_contains workshop_whitelist_lookup find_player
    find_settlement is_player is_settlement find_first update_first free_object distance_sq sqrf
build_ok = refl

ac_handle_build_request-accepted_example :
    let (result, w') = ac_handle_build_request whole authority request in
    (validate_player_connected session 2 ≡ true)
    × (workshop_whitelist_contains authority.whitelist 77 ≡ true)
    × (result.object_net_id ≡ 1000)
    × ((is_some (find_object session 1000) ≡ true)
        ⊎ (find_object w'.session 1000 ≡ some (placed whole authority request)))
    × ((t : SettlementState) × (find_settlement session 3 ≡ some t)
        × (t.object_count < t.object_budget)
        × (find_settlement w'.session 3 ≡ some (one_more t)))
unfolding find_object is_object find_first
ac_handle_build_request-accepted_example =
    ac_handle_build_request-accepted whole authority request build_ok

-- A form that is not on the whitelist.
abbrev bad_request : MsgBuildRequest
bad_request = record request { form_id = 78 }

build_denied_ok : (ac_handle_build_request whole authority bad_request).0.accepted ≡ 0
unfolding ac_handle_build_request build_denied ws_alloc_object validate_build_request
    validate_player_connected in_settlement snap_valid workshop_whitelist_contains
    workshop_whitelist_lookup find_player find_settlement is_player is_settlement find_first
    update_first free_object distance_sq sqrf
build_denied_ok = refl

ac_handle_build_request-denied_example :
    ((ac_handle_build_request whole authority bad_request).1.session ≡ session)
    × ((ac_handle_build_request whole authority bad_request).0.reason ≢ 0)
    × ((ac_handle_build_request whole authority bad_request).0.object_net_id ≡ 0)
ac_handle_build_request-denied_example =
    ac_handle_build_request-denied whole authority bad_request build_denied_ok

workshop_run-IsWithinBudget_example :
    IsWithinBudget
      (workshop_run whole authority (build request ∷ build request ∷ build request ∷ [])).session
workshop_run-IsWithinBudget_example =
    workshop_run-IsWithinBudget whole authority (build request ∷ build request ∷ build request ∷ [])
      (omega arith, tt)

-- Every vector is its own direction.
abbrev unscaled : Floats
unscaled = record whole { sqrt = λ _. 1 }

-- The actor stands in front of the player who shoots, in the cone, and has a quarter of its health.
abbrev ambush : SessionState
ambush = record session {
  actors =
      record zero_actor {
        in_use = true;
        actor_net_id = 90;
        replicated_state = record zero_actor_state {
          actor_net_id = 90;
          actor_flags = 1;
          health_norm = 0x3e80_0000;
          position = record zero_vec { x = 65536 };
        };
      }
      ∷ zero_actor
      ∷ [];
}

-- The shot lands, and kills.
shot_lands :
    (r : FireResult) × (ac_handle_fire_intent unscaled ambush shot no_damage ≡ some r)
    × (r.damage.victim_actor_net_id ≡ 90)
    × (is_some r.death ≡ true)
unfolding ac_handle_fire_intent validate_fire_intent find_player find_first is_player distance_sq
    f4mp.Service.Geometry.cg_normalize f4mp.Service.Geometry.cg_length_sq
    f4mp.Service.Geometry.los_policy_allows f4mp.Service.Geometry.los_policy_set_provider
    f4mp.Service.Store.wtp_trace_allows f4mp.Service.Geometry.cg_target_within_cone
    f4mp.Service.Geometry.av_default_combat_geometry f4mp.Service.Geometry.cg_dot
shot_lands = (_, refl, refl, refl)

ac_handle_fire_intent-IsShot_example :
    ((ac_handle_fire_intent unscaled ambush shot no_damage ≡ none)
      × (validate_fire_intent unscaled ambush shot ≡ false))
    ⊎ ((r : FireResult) × (ac_handle_fire_intent unscaled ambush shot no_damage ≡ some r)
        × (validate_fire_intent unscaled ambush shot ≡ true)
        × (IsMiss unscaled ambush shot no_damage r ⊎ IsShot unscaled ambush shot r))
ac_handle_fire_intent-IsShot_example = ac_handle_fire_intent-IsShot unscaled ambush shot no_damage

abbrev state_at : ℕ → ℕ → MsgPlayerState
state_at seq tick = record zero_player_state {
  player_id = 1;
  state_sequence = seq;
  observed_tick = tick;
}

accepted-Rises_example : Rises 0 0 (
    Order.accepted zero_relay_stats
      (state_at 5 50 ∷ state_at 4 60 ∷ state_at 6 40 ∷ state_at 6 70 ∷ []))
accepted-Rises_example =
    accepted-Rises zero_relay_stats
      (state_at 5 50 ∷ state_at 4 60 ∷ state_at 6 40 ∷ state_at 6 70 ∷ [])

relay_ok : (psr_evaluate zero_relay_stats (state_at 5 50)).0 ≡ accept
unfolding psr_evaluate is_stale is_regressive
relay_ok = refl

psr_evaluate_twice_example :
    let s' = (psr_evaluate zero_relay_stats (state_at 5 50)).1 in
    psr_evaluate s' (state_at 5 50)
    ≡ (reject, record s' { rejected_stale_count = (s'.rejected_stale_count + 1) % 2 ^ 32 })
psr_evaluate_twice_example =
    psr_evaluate_twice zero_relay_stats (state_at 5 50) (omega arith) (omega arith) relay_ok

abbrev quest_header : MsgQuestUpdateHeader
quest_header = record { quest_id = 9; stage = 20; tracked = 1; objective_count = 1 }

abbrev quest_rows : List (MsgQuestObjectiveRecord × List ℕ)
quest_rows = (record { objective_id = 1; state = 1; reserved0 = [] }, 71 ∷ []) ∷ []

quest_ok :
    quest_update session quest_header quest_rows
    ≡ some (store_quest session quest_header quest_rows)
unfolding quest_update qmp_validate_update check_objectives objective_state_valid allows_objective
    objective_transition_valid find_first
quest_ok = refl

quest_update-Follows_example :
    let s' = store_quest session quest_header quest_rows in
    (s'.quest.quest_id ≡ 9)
    × (10 ≤ s'.quest.stage)
    × (s'.quest.objective_count ≡ 1)
    × All (Follows session.quest) (record { objective_id = 1; state = 1; reserved0 = [] } ∷ [])
quest_update-Follows_example =
    quest_update-Follows session (store_quest session quest_header quest_rows) quest_header
      quest_rows refl (omega arith) quest_ok

quest_run-stage_example :
    ((quest_run session (
        (quest_header, quest_rows)
        ∷ (record quest_header { stage = 15 }, quest_rows)
        ∷ [])).quest.quest_id
      ≡ 9)
    × (10
        ≤ (quest_run session (
            (quest_header, quest_rows)
            ∷ (record quest_header { stage = 15 }, quest_rows)
            ∷ [])).quest.stage)
quest_run-stage_example =
    quest_run-stage session
      ((quest_header, quest_rows) ∷ (record quest_header { stage = 15 }, quest_rows) ∷ []) refl
      (omega arith)

dsp_validate_selection-accepted_example :
    (dsp_validate_selection session (record { dialogue_id = 5; choice_id = 1 }) ≡ accepted)
    ↔ Accepts session (record { dialogue_id = 5; choice_id = 1 })
dsp_validate_selection-accepted_example =
    dsp_validate_selection-accepted session (record { dialogue_id = 5; choice_id = 1 })

abbrev pick : MsgDialogueSelect
pick = record { dialogue_id = 5; choice_id = 1 }

abbrev picked : DialogueProgressionOutput
picked = record {
  line = record { dialogue_id = 5; speaker_actor_net_id = 0 };
  line_text = selected_text (89 ∷ []);
  close = record { dialogue_id = 5; reason = 0; reserved0 = 0 ∷ 0 ∷ 0 ∷ [] };
}

abbrev after_pick : SessionState
after_pick = record session {
  dialogue = record (session.dialogue) {
    current_line = take 255 (selected_text (89 ∷ []));
    choice_count = 0;
    last_selected_choice_id = 1;
    last_selected_by_player = 1;
  };
}

pick_ok : dpp_apply_selection session 1 pick ≡ (some picked, after_pick)
unfolding dpp_apply_selection progress advance dsp_apply_selection dsp_validate_selection
    find_choice find_first
pick_ok = refl

dpp_apply_selection_once_example :
    dpp_apply_selection after_pick 2 (record { dialogue_id = 5; choice_id = 2 })
    ≡ (none, after_pick)
dpp_apply_selection_once_example =
    dpp_apply_selection_once session 1 2 pick (record { dialogue_id = 5; choice_id = 2 }) picked
      after_pick pick_ok

abbrev registry : Registry
registry = record { in_use = true; player_guid = 67 ∷ []; player_id = 1 } ∷ zero_entry ∷ []

sr_find_player_id-sr_bind_player_example :
    sr_find_player_id (sr_bind_player registry (65 ∷ 66 ∷ []) 3) (65 ∷ 66 ∷ []) ≡ some 3
unfolding sr_find_player_id find_first has_guid free_entry same_string
sr_find_player_id-sr_bind_player_example =
    sr_find_player_id-sr_bind_player registry (65 ∷ 66 ∷ []) 3 (λ p. cc) (omega arith) refl

sr_find_player_id-sr_bind_player_other_example :
    sr_find_player_id (sr_bind_player registry (65 ∷ 66 ∷ []) 3) (67 ∷ [])
    ≡ sr_find_player_id registry (67 ∷ [])
sr_find_player_id-sr_bind_player_other_example =
    sr_find_player_id-sr_bind_player_other registry (65 ∷ 66 ∷ []) (67 ∷ []) 3 (λ p. cc)
      (omega arith)

abbrev long_guid : List ℕ
long_guid = replicate 64 65

sr_bind_player_long_example :
    sr_find_player_id (sr_bind_player registry long_guid 3) long_guid ≡ none
sr_bind_player_long_example =
    sr_bind_player_long registry long_guid 3 (omega arith, (omega arith, tt)) (omega arith)
