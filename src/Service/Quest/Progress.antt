-- ===== src/Service/Quest/Progress.antt =====
-- service/src/quest_mirror_policy.c: what is accepted, and the stage of a mirrored quest.
use f4mp.Base.{
  ℕ, ◌≤◌, ◌≡◌, ◌≢◌, ◌⊎◌, inl, inr, refl, sym, ◌∙◌, true, Option, none, some, List, [], ◌∷◌, map,
  take, arith, ◌==◌, All, Option-cases,
}
use f4mp.Messages.Ui.{MsgQuestUpdateHeader, MsgQuestObjectiveRecord}
use f4mp.Service.State.{SessionState, SessionQuestState, SessionQuestObjectiveState}
use f4mp.Service.Zero.{max_quest_objectives}
use f4mp.Service.Slots.{find_first}
use f4mp.Service.Quest.{
  qmp_validate_update, check_objectives, allows_objective, objective_state_valid,
  objective_transition_valid, quest_update, store_quest, qobj_active, qobj_completed, qobj_failed,
}

-- The stored objective that an incoming one is compared with.
abbrev pub counterpart :
    SessionQuestState → MsgQuestObjectiveRecord → Option SessionQuestObjectiveState
counterpart q obj =
    find_first (λ (o : SessionQuestObjectiveState). o.objective_id == obj.objective_id)
      (take q.objective_count q.objectives)

-- From active to completed or failed, or no change.
abbrev pub Advances : ℕ → ℕ → Type 0
Advances old new =
    (old ≡ new) ⊎ ((old ≡ qobj_active) × ((new ≡ qobj_completed) ⊎ (new ≡ qobj_failed)))

abbrev pub IsObjectiveState : ℕ → Type 0
IsObjectiveState n = (n ≡ qobj_active) ⊎ (n ≡ qobj_completed) ⊎ (n ≡ qobj_failed)

abbrev pub AdvancesFrom : Option SessionQuestObjectiveState → ℕ → Type 0
AdvancesFrom none new = Unit {0}
AdvancesFrom (some o) new = Advances o.state new

-- An objective of an update of the quest that is already mirrored.
abbrev pub Follows : SessionQuestState → MsgQuestObjectiveRecord → Type 0
Follows q obj = IsObjectiveState obj.state × AdvancesFrom (counterpart q obj) obj.state

state_valid : (n : ℕ) → objective_state_valid n ≡ true → IsObjectiveState n
unfolding objective_state_valid
state_valid n e = ground arith

transition_valid : (a b : ℕ) → objective_transition_valid a b ≡ true → Advances a b
unfolding objective_transition_valid
transition_valid a b e = ground arith

allows_advance :
    (q : SessionQuestState) (obj : MsgQuestObjectiveRecord)
    → allows_objective q obj ≡ true
    → AdvancesFrom (counterpart q obj) obj.state
unfolding allows_objective
allows_advance q obj e = go (counterpart q obj) e
  where
    go :
        (o : Option SessionQuestObjectiveState)
        → elim o [ none ↦ true | some o' ↦ objective_transition_valid o'.state obj.state ] ≡ true
        → AdvancesFrom o obj.state
    go none h = tt
    go (some o) h = transition_valid o.state obj.state h

check_cons :
    (q : SessionQuestState) (quest_id : ℕ) (obj : MsgQuestObjectiveRecord)
    (objs : List MsgQuestObjectiveRecord)
    → q.loaded ≡ true
    → q.quest_id ≡ quest_id
    → check_objectives q quest_id (obj ∷ objs) ≡ 0
    → (objective_state_valid obj.state ≡ true)
      × (allows_objective q obj ≡ true)
      × (check_objectives q quest_id objs ≡ 0)
unfolding check_objectives
check_cons q quest_id obj objs l i e = unfold objective_state_valid in ground arith

checked :
    (q : SessionQuestState) (quest_id : ℕ) (objs : List MsgQuestObjectiveRecord)
    → q.loaded ≡ true
    → q.quest_id ≡ quest_id
    → check_objectives q quest_id objs ≡ 0
    → All (Follows q) objs
checked q quest_id [] l i e = tt
checked q quest_id (obj ∷ objs) l i e =
    let (valid, allowed, rest) = check_cons q quest_id obj objs l i e in
    ((state_valid obj.state valid, allows_advance q obj allowed), checked q quest_id objs l i rest)

-- What an accepted update of a mirrored quest must be.
validated :
    (s : SessionState) (h : MsgQuestUpdateHeader) (objs : List MsgQuestObjectiveRecord)
    → s.quest.loaded ≡ true
    → s.quest.quest_id ≢ 0
    → (qmp_validate_update s h objs).accepted ≡ true
    → (s.quest.quest_id ≡ h.quest_id)
      × (s.quest.stage ≤ h.stage)
      × (h.objective_count ≤ max_quest_objectives)
      × (check_objectives s.quest h.quest_id (take h.objective_count objs) ≡ 0)
unfolding qmp_validate_update
validated s h objs l ne e = ground arith

-- While a quest is loaded whose id is not 0, an update that is accepted is of the same quest, at no
-- lower stage, and each of its objectives has a known state that the one stored under its id may go to.
pub quest_update-Follows :
    (s s' : SessionState) (h : MsgQuestUpdateHeader)
    (rows : List (MsgQuestObjectiveRecord × List ℕ))
    → s.quest.loaded ≡ true
    → s.quest.quest_id ≢ 0
    → quest_update s h rows ≡ some s'
    → (s'.quest.quest_id ≡ s.quest.quest_id)
      × (s.quest.stage ≤ s'.quest.stage)
      × (s'.quest.objective_count ≡ h.objective_count)
      × All (Follows s.quest) (take h.objective_count (map (λ r. r.0) rows))
unfolding quest_update store_quest
quest_update-Follows s s' h rows l ne e =
    let objs : List MsgQuestObjectiveRecord = map (λ r. r.0) rows in
    let ok : (qmp_validate_update s h objs).accepted ≡ true = ground arith in
    let (same, stage, few, checks) = validated s h objs l ne ok in
    (
      ground arith,
      ground arith,
      ground arith,
      checked s.quest h.quest_id (take h.objective_count objs) l same checks,
    )

abbrev pub Update : Type 0
Update = MsgQuestUpdateHeader × List (MsgQuestObjectiveRecord × List ℕ)

abbrev pub or_keep : SessionState → Option SessionState → SessionState
or_keep s none = s
or_keep s (some s') = s'

-- The session after a sequence of updates, of which the rejected ones change nothing.
unfoldable pub quest_run : SessionState → List Update → SessionState
quest_run s [] = s
quest_run s ((h, rows) ∷ us) = quest_run (or_keep s (quest_update s h rows)) us

quest_update-loaded :
    (s : SessionState) (h : MsgQuestUpdateHeader) (rows : List (MsgQuestObjectiveRecord × List ℕ))
    → s.quest.loaded ≡ true
    → (or_keep s (quest_update s h rows)).quest.loaded ≡ true
unfolding quest_update store_quest
quest_update-loaded s h rows l = ground arith

quest_update-stage :
    (s : SessionState) (h : MsgQuestUpdateHeader) (rows : List (MsgQuestObjectiveRecord × List ℕ))
    → s.quest.loaded ≡ true
    → s.quest.quest_id ≢ 0
    → ((or_keep s (quest_update s h rows)).quest.quest_id ≡ s.quest.quest_id)
      × (s.quest.stage ≤ (or_keep s (quest_update s h rows)).quest.stage)
quest_update-stage s h rows l ne = elim (Option-cases (quest_update s h rows)) [
  | inl e ↦ rw e (refl, omega arith)
  | inr (s', e) ↦
      let (same, stage, _, _) = quest_update-Follows s s' h rows l ne e in rw e (same, stage)
]

-- Whatever updates arrive, the one mirrored quest is kept and its stage never goes back.
pub quest_run-stage :
    (s : SessionState) (us : List Update)
    → s.quest.loaded ≡ true
    → s.quest.quest_id ≢ 0
    → ((quest_run s us).quest.quest_id ≡ s.quest.quest_id)
      × (s.quest.stage ≤ (quest_run s us).quest.stage)
unfolding quest_run
quest_run-stage s [] l ne = (refl, omega arith)
quest_run-stage s ((h, rows) ∷ us) l ne =
    let (same, stage) = quest_update-stage s h rows l ne in
    let (same', stage') =
      quest_run-stage (or_keep s (quest_update s h rows)) us (quest_update-loaded s h rows l)
        (λ z. ne (sym same ∙ z)) in
    (same' ∙ same, omega arith)
