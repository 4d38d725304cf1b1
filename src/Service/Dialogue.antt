-- ===== src/Service/Dialogue.antt =====
-- service/src/dialogue_selection_policy.c and dialogue_progression_policy.c.
pub mod Selection
use Prim.Native.String.{String}
use Prim.Native.Char.{code}
use f4mp.Base.{
  ℕ, Bool, true, false, not, Option, none, some, List, [], ◌∷◌, ◌++◌, ◌==◌, if◌then◌else◌, take,
}
use f4mp.Messages.Ui.{MsgDialogueSelect, MsgDialogueLine, MsgDialogueClose}
use f4mp.Service.State.{SessionState, SessionDialogueState, SessionDialogueChoiceState}
use f4mp.Service.Slots.{find_first}

pub data DialogueSelectionResult : Type 0 where
  accepted no_active_dialogue dialogue_mismatch choice_not_found choice_disabled :
      DialogueSelectionResult

-- The loop over the first `choice_count` choices, to the one that was selected.
unfoldable pub find_choice : SessionDialogueState → ℕ → Option SessionDialogueChoiceState
find_choice d choice_id =
    find_first (λ (c : SessionDialogueChoiceState). c.choice_id == choice_id)
      (take d.choice_count d.choices)

unfoldable pub dsp_validate_selection : SessionState → MsgDialogueSelect → DialogueSelectionResult
dsp_validate_selection s select =
    if not s.dialogue.active
    then no_active_dialogue
    else if not (s.dialogue.dialogue_id == select.dialogue_id)
    then dialogue_mismatch
    else elim (find_choice s.dialogue select.choice_id) [
      | none ↦ choice_not_found
      | some c ↦ if c.enabled == 0 then choice_disabled else accepted
    ]

unfoldable pub dsp_apply_selection :
    SessionState → ℕ → MsgDialogueSelect → DialogueSelectionResult × SessionState
dsp_apply_selection s player_id select = elim (dsp_validate_selection s select) [
  | accepted ↦ (
    accepted,
    record s {
      dialogue = record d {
        last_selected_choice_id = select.choice_id;
        last_selected_by_player = player_id;
      };
    },
  )
  | r ↦ (r, s)
]
  where
    d : SessionDialogueState
    d = s.dialogue

-- The code points of a text: its bytes, if it is ASCII.
abbrev pub codes : String → List ℕ
codes String.[] = []
codes (String.◌∷◌ c s) = code c ∷ codes s

pub record DialogueProgressionOutput : Type 0 where
  pub line : MsgDialogueLine
  pub line_text : List ℕ
  pub close : MsgDialogueClose

-- `snprintf(line_text, 256, "Selected: %s", choice_text)`
unfoldable pub selected_text : List ℕ → List ℕ
selected_text choice_text = take 255 (codes "Selected: " ++ choice_text)

unfoldable pub advance :
    SessionState → SessionDialogueChoiceState → DialogueProgressionOutput × SessionState
advance s c = (
  record {
    line = record { dialogue_id = d.dialogue_id; speaker_actor_net_id = d.speaker_actor_net_id };
    line_text = selected_text c.text;
    close = record { dialogue_id = d.dialogue_id; reason = 0; reserved0 = 0 ∷ 0 ∷ 0 ∷ [] };
  },
  record s {
    dialogue = record d { current_line = take 255 (selected_text c.text); choice_count = 0 };
  },
)
  where
    d : SessionDialogueState
    d = s.dialogue

unfoldable pub progress :
    MsgDialogueSelect
    → DialogueSelectionResult × SessionState
    → Option DialogueProgressionOutput × SessionState
unfolding advance
progress select (accepted, s) = elim (find_choice s.dialogue select.choice_id) [
  | none ↦ (none, s)
  | some c ↦ let (out, s') = advance s c in (some out, s')
]
progress select (r, s) = (none, s)

-- `none` stands for `DPR_REJECTED`; otherwise the result is `DPR_ADVANCED_LINE`.
unfoldable pub dpp_apply_selection :
    SessionState → ℕ → MsgDialogueSelect → Option DialogueProgressionOutput × SessionState
unfolding progress
dpp_apply_selection s player_id select = progress select (dsp_apply_selection s player_id select)
