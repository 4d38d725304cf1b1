-- ===== src/Service/Quest.antt =====
-- service/src/quest_mirror_policy.c, and the session's quest as hem_quest_update of
-- host_event_mirror.c stores it.
pub mod Progress
use f4mp.Base.{
  ℕ, zero, suc, ◌/◌, ◌%◌, Bool, true, false, not, ◌&&◌, ◌||◌, Option, none, some, List, [], ◌∷◌,
  ◌++◌, ◌==◌, ltb, if◌then◌else◌, take, drop, length, map,
}
use f4mp.Messages.Ui.{MsgQuestUpdateHeader, MsgQuestObjectiveRecord}
use f4mp.Service.State.{SessionState, SessionQuestState, SessionQuestObjectiveState}
use f4mp.Service.Zero.{zero_quest, max_quest_objectives}
use f4mp.Service.Slots.{find_first}

abbrev pub qobj_active : ℕ
qobj_active = 0

abbrev pub qobj_completed : ℕ
qobj_completed = 1

abbrev pub qobj_failed : ℕ
qobj_failed = 2

unfoldable pub objective_state_valid : ℕ → Bool
objective_state_valid state =
    state == qobj_active || state == qobj_completed || state == qobj_failed

unfoldable pub objective_transition_valid : ℕ → ℕ → Bool
objective_transition_valid old_state new_state =
    if old_state == new_state
    then true
    else old_state == qobj_active && (new_state == qobj_completed || new_state == qobj_failed)

pub record QuestMirrorPolicyResult : Type 0 where
  pub accepted : Bool
  pub reason_code : ℕ

abbrev reject : ℕ → QuestMirrorPolicyResult
reject reason_code = record { accepted = false; reason_code = reason_code }

-- `x & (1u << k)` is not zero.
abbrev pub has_bit : ℕ → ℕ → Bool
has_bit x power = (x / power) % 2 == 1

abbrev pub rule_quest_mirror_enabled : ℕ
rule_quest_mirror_enabled = 64

-- The loop on `j`: the stored objective of the same id, if there is one, allows the new state.
unfoldable pub allows_objective : SessionQuestState → MsgQuestObjectiveRecord → Bool
unfolding objective_transition_valid
allows_objective q obj =
    elim (find_first (λ (o : SessionQuestObjectiveState). o.objective_id == obj.objective_id)
      (take q.objective_count q.objectives)) [
        | none ↦ true
        | some o ↦ objective_transition_valid o.state obj.state
      ]

-- The loop on `i`, over the first `objective_count` records: 0, or the code to reject with.
unfoldable pub check_objectives : SessionQuestState → ℕ → List MsgQuestObjectiveRecord → ℕ
unfolding objective_state_valid
check_objectives q quest_id [] = 0
check_objectives q quest_id (obj ∷ objs) =
    let rest = check_objectives q quest_id objs in
    if not (objective_state_valid obj.state)
    then 5
    else if q.loaded && q.quest_id == quest_id && not (allows_objective q obj)
    then 7
    else rest

unfoldable pub qmp_validate_update :
    SessionState → MsgQuestUpdateHeader → List MsgQuestObjectiveRecord → QuestMirrorPolicyResult
qmp_validate_update s h objs =
    if not (has_bit s.rules rule_quest_mirror_enabled)
    then reject 2
    else if ltb max_quest_objectives h.objective_count
    then reject 3
    else if q.loaded && not (q.quest_id == 0) && not (q.quest_id == h.quest_id)
    then reject 4
    else if q.loaded && q.quest_id == h.quest_id && ltb h.stage q.stage
    then reject 6
    else (let code = check_objectives q h.quest_id (take h.objective_count objs) in
        if code == 0 then record { accepted = true; reason_code = 0 } else reject code)
  where
    q : SessionQuestState
    q = s.quest

-- `strncpy(dst, text, 255)` into a zeroed char array of 256.
abbrev stored_objective : MsgQuestObjectiveRecord × List ℕ → SessionQuestObjectiveState
stored_objective (obj, text) = record {
  objective_id = obj.objective_id;
  state = obj.state;
  text = take 255 text;
}

-- The stores of hem_quest_update. A record comes with its text, which is empty where `texts` is null.
unfoldable pub store_quest :
    SessionState → MsgQuestUpdateHeader → List (MsgQuestObjectiveRecord × List ℕ) → SessionState
store_quest s h rows = record s {
  quest = record {
    loaded = true;
    quest_id = h.quest_id;
    stage = h.stage;
    tracked = h.tracked;
    objective_count = count;
    objectives = map stored_objective (take count rows) ++ drop count zero_quest.objectives;
  };
}
  where
    count : ℕ
    count =
        if ltb h.objective_count max_quest_objectives
        then h.objective_count
        else max_quest_objectives

-- hem_quest_update up to its broadcast: `none` where the policy rejects.
unfoldable pub quest_update :
    SessionState
    → MsgQuestUpdateHeader
    → List (MsgQuestObjectiveRecord × List ℕ)
    → Option SessionState
quest_update s h rows =
    if (qmp_validate_update s h (map (λ r. r.0) rows)).accepted
    then some (store_quest s h rows)
    else none
