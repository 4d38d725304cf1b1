-- ===== src/Service/Dialogue/Selection.antt =====
-- service/src/dialogue_selection_policy.c and dialogue_progression_policy.c: selections, one or two in a row.
use f4mp.Base.{
  ℕ, zero, suc, ◌<◌, ◌≡◌, ◌≢◌, ◌↔◌, sym, ap, ◌∙◌, inl, inr, true, none, some, List, [], ◌∷◌, ◌++◌,
  ◌==◌, ==_cases, All, length, take, arith, Option-cases,
}
use f4mp.Messages.Ui.{MsgDialogueSelect}
use f4mp.Service.State.{SessionState, SessionDialogueState, SessionDialogueChoiceState}
use f4mp.Service.Slots.{find_first}
use f4mp.Service.Dialogue.{
  accepted, find_choice, dsp_validate_selection, dsp_apply_selection, dpp_apply_selection,
  DialogueProgressionOutput,
}

-- Among the choices that are offered, the first with the id: where it stands in the array.
pub record Offers (d : SessionDialogueState) (choice_id : ℕ) (c : SessionDialogueChoiceState)
    : Type 0 where
  pub before : List SessionDialogueChoiceState
  pub after : List SessionDialogueChoiceState
  pub choices : d.choices ≡ before ++ (c ∷ after)
  pub offered : length before < d.choice_count
  pub others : All (λ (b : SessionDialogueChoiceState). b.choice_id ≢ choice_id) before
  pub same : c.choice_id ≡ choice_id

abbrev pub Accepts : SessionState → MsgDialogueSelect → Type 0
Accepts s select =
    (s.dialogue.active ≡ true)
    × (s.dialogue.dialogue_id ≡ select.dialogue_id)
    × ((c : SessionDialogueChoiceState) × Offers s.dialogue select.choice_id c × (c.enabled ≢ 0))

-- The first that passes, in the first `n` of a list.
record IsFirst (n id : ℕ) (xs : List SessionDialogueChoiceState) (c : SessionDialogueChoiceState)
    : Type 0 where
  before : List SessionDialogueChoiceState
  after : List SessionDialogueChoiceState
  splits : xs ≡ before ++ (c ∷ after)
  within : length before < n
  others : All (λ (b : SessionDialogueChoiceState). b.choice_id ≢ id) before
  same : c.choice_id ≡ id

find_first-IsFirst :
    (n id : ℕ) (xs : List SessionDialogueChoiceState) (c : SessionDialogueChoiceState)
    → find_first (λ (b : SessionDialogueChoiceState). b.choice_id == id) (take n xs) ≡ some c
    → IsFirst n id xs c
unfolding find_first
find_first-IsFirst zero id xs c e = absurd (ground arith)
find_first-IsFirst (suc n) id [] c e = absurd (ground arith)
find_first-IsFirst (suc n) id (x ∷ xs) c e = elim (==_cases x.choice_id id) [
  | inl (hit, same) ↦
      let found : x ≡ c = ground arith in
      record {
        before = [];
        after = xs;
        splits = ap (λ y. y ∷ xs) found;
        within = omega arith;
        others = tt;
        same = ap (λ (y : SessionDialogueChoiceState). y.choice_id) (sym found) ∙ same;
      }
  | inr (miss, other) ↦
      let rest = find_first-IsFirst n id xs c (ground arith) in
      record {
        before = x ∷ rest.before;
        after = rest.after;
        splits = ap (◌∷◌ x) rest.splits;
        within = omega (arith, rest.within);
        others = (other, rest.others);
        same = rest.same;
      }
]

find_first-before :
    (n id : ℕ) (before after : List SessionDialogueChoiceState) (c : SessionDialogueChoiceState)
    → length before < n
    → All (λ (b : SessionDialogueChoiceState). b.choice_id ≢ id) before
    → c.choice_id ≡ id
    → find_first
        (λ (b : SessionDialogueChoiceState). b.choice_id == id)
        (take n (before ++ (c ∷ after)))
      ≡ some c
unfolding find_first
find_first-before zero id before after c short others same = absurd (omega arith)
find_first-before (suc n) id [] after c short others same = ground arith
find_first-before (suc n) id (x ∷ before) after c short others same =
    let miss = others.0 in
    let rest = find_first-before n id before after c (omega arith) others.1 same in
    ground (arith, miss, rest)

find_choice-Offers :
    (d : SessionDialogueState) (id : ℕ) (c : SessionDialogueChoiceState)
    → find_choice d id ≡ some c
    → Offers d id c
unfolding find_choice
find_choice-Offers d id c e =
    let first = find_first-IsFirst d.choice_count id d.choices c e in
    record {
      before = first.before;
      after = first.after;
      choices = first.splits;
      offered = first.within;
      others = first.others;
      same = first.same;
    }

Offers-find_choice :
    (d : SessionDialogueState) (id : ℕ) (c : SessionDialogueChoiceState)
    → Offers d id c
    → find_choice d id ≡ some c
unfolding find_choice
Offers-find_choice d id c o =
    ap
      (λ xs.
        find_first (λ (b : SessionDialogueChoiceState). b.choice_id == id) (take d.choice_count xs))
      o.choices
    ∙ find_first-before d.choice_count id o.before o.after c o.offered o.others o.same

accepted_needs :
    (s : SessionState) (select : MsgDialogueSelect)
    → dsp_validate_selection s select ≡ accepted
    → Accepts s select
unfolding dsp_validate_selection
accepted_needs s select e = elim (Option-cases (find_choice s.dialogue select.choice_id)) [
  | inl p ↦ absurd (ground arith)
  | inr (c, p) ↦ (
    ground arith,
    ground arith,
    (c, find_choice-Offers s.dialogue select.choice_id c p, ground arith),
  )
]

accepted_from :
    (s : SessionState) (select : MsgDialogueSelect)
    → Accepts s select
    → dsp_validate_selection s select ≡ accepted
unfolding dsp_validate_selection
accepted_from s select (a, d, (c, o, h)) =
    ground (arith, Offers-find_choice s.dialogue select.choice_id c o)

-- A selection is accepted exactly when a dialogue is active, it is the one named, and among the first
-- choice_count choices, which are those offered, the first with the selected id is enabled.
pub dsp_validate_selection-accepted :
    (s : SessionState) (select : MsgDialogueSelect)
    → (dsp_validate_selection s select ≡ accepted) ↔ Accepts s select
dsp_validate_selection-accepted s select = (accepted_needs s select, accepted_from s select)

-- Once a selection has gone through, the next one is rejected, whoever sends it and whatever it is.
pub dpp_apply_selection_once :
    (s : SessionState) (p q : ℕ) (first second : MsgDialogueSelect)
    (out : DialogueProgressionOutput) (s' : SessionState)
    → dpp_apply_selection s p first ≡ (some out, s')
    → dpp_apply_selection s' q second ≡ (none, s')
unfolding dpp_apply_selection dsp_apply_selection dsp_validate_selection find_choice find_first
dpp_apply_selection_once s p q first second out s' e = ground arith
