-- ===== src/Codec/Ui.antt =====
-- shared/protocol/packet_codec.c: the messages of messages_ui.h.
pub mod Agree
use f4mp.Base.{ℕ, List, [], Option, none, some}
use f4mp.Codec.Rows.{write_rows, read_rows, read_at_most}
use f4mp.Wire.Writer.{
  W, ◌and_then◌, pw_write_bytes, pw_write_string_u16, pw_write_u16, pw_write_u32, pw_write_u8,
}
use f4mp.Wire.Reader.{
  R, ◌>>=◌, done, pr_read_bytes, pr_read_string_u16, pr_read_u16, pr_read_u32, pr_read_u8,
}
use f4mp.Messages.Ui.{
  MsgDialogueOpen, MsgDialogueSelect, MsgDialogueClose, MsgDialogueLine, MsgDialogueChoicesHeader,
  MsgDialogueChoiceRecord, MsgQuestUpdateHeader, MsgQuestObjectiveRecord,
}

unfoldable pub encode_msg_dialogue_open : MsgDialogueOpen → W
encode_msg_dialogue_open m =
    pw_write_u32 m.dialogue_id
    and_then pw_write_u32 m.npc_actor_net_id
    and_then pw_write_u32 m.speaker_actor_net_id

unfoldable pub decode_msg_dialogue_open : R MsgDialogueOpen
decode_msg_dialogue_open = do
  dialogue_id ← pr_read_u32
  npc_actor_net_id ← pr_read_u32
  speaker_actor_net_id ← pr_read_u32
  done (record {
    dialogue_id = dialogue_id;
    npc_actor_net_id = npc_actor_net_id;
    speaker_actor_net_id = speaker_actor_net_id;
  })

unfoldable pub encode_msg_dialogue_select : MsgDialogueSelect → W
encode_msg_dialogue_select m = pw_write_u32 m.dialogue_id and_then pw_write_u32 m.choice_id

unfoldable pub decode_msg_dialogue_select : R MsgDialogueSelect
decode_msg_dialogue_select = do
  dialogue_id ← pr_read_u32
  choice_id ← pr_read_u32
  done (record { dialogue_id = dialogue_id; choice_id = choice_id })

unfoldable pub encode_msg_dialogue_close : MsgDialogueClose → W
encode_msg_dialogue_close m =
    pw_write_u32 m.dialogue_id and_then pw_write_u8 m.reason and_then pw_write_bytes m.reserved0

unfoldable pub decode_msg_dialogue_close : R MsgDialogueClose
decode_msg_dialogue_close = do
  dialogue_id ← pr_read_u32
  reason ← pr_read_u8
  reserved0 ← pr_read_bytes 3
  done (record { dialogue_id = dialogue_id; reason = reason; reserved0 = reserved0 })

-- `text ? text : ""`: a text pointer may be null, which is `none`.
abbrev pub text_or_empty : Option (List ℕ) → List ℕ
text_or_empty none = []
text_or_empty (some text) = text

unfoldable pub encode_msg_dialogue_line : MsgDialogueLine → Option (List ℕ) → W
encode_msg_dialogue_line m text =
    pw_write_u32 m.dialogue_id
    and_then pw_write_u32 m.speaker_actor_net_id
    and_then pw_write_string_u16 (text_or_empty text)

unfoldable pub decode_msg_dialogue_line : ℕ → R (MsgDialogueLine × List ℕ)
decode_msg_dialogue_line text_cap = do
  dialogue_id ← pr_read_u32
  speaker_actor_net_id ← pr_read_u32
  text ← pr_read_string_u16 text_cap
  done (record { dialogue_id = dialogue_id; speaker_actor_net_id = speaker_actor_net_id }, text)

-- A row is a record with its text, `texts && texts[i] ? texts[i] : ""`.
unfoldable pub write_dialogue_choice : MsgDialogueChoiceRecord × Option (List ℕ) → W
write_dialogue_choice (m, text) =
    pw_write_u32 m.choice_id
    and_then pw_write_u8 m.enabled
    and_then pw_write_bytes m.reserved0
    and_then pw_write_string_u16 (text_or_empty text)

unfoldable pub read_dialogue_choice : R (MsgDialogueChoiceRecord × List ℕ)
read_dialogue_choice = do
  choice_id ← pr_read_u32
  enabled ← pr_read_u8
  reserved0 ← pr_read_bytes 3
  text ← pr_read_string_u16 256
  done (record { choice_id = choice_id; enabled = enabled; reserved0 = reserved0 }, text)

unfoldable pub encode_msg_dialogue_choices :
    MsgDialogueChoicesHeader → List (MsgDialogueChoiceRecord × Option (List ℕ)) → W
encode_msg_dialogue_choices h choices =
    pw_write_u32 h.dialogue_id
    and_then pw_write_u16 h.choice_count
    and_then pw_write_u16 h.reserved0
    and_then write_rows write_dialogue_choice h.choice_count choices

unfoldable pub decode_msg_dialogue_choices :
    ℕ → R (MsgDialogueChoicesHeader × List (MsgDialogueChoiceRecord × List ℕ))
decode_msg_dialogue_choices max_choices = do
  dialogue_id ← pr_read_u32
  choice_count ← pr_read_u16
  reserved0 ← pr_read_u16
  choices ← read_at_most max_choices (read_rows read_dialogue_choice choice_count) choice_count
  done (
    record { dialogue_id = dialogue_id; choice_count = choice_count; reserved0 = reserved0 },
    choices,
  )

unfoldable pub write_quest_objective : MsgQuestObjectiveRecord × Option (List ℕ) → W
write_quest_objective (m, text) =
    pw_write_u32 m.objective_id
    and_then pw_write_u8 m.state
    and_then pw_write_bytes m.reserved0
    and_then pw_write_string_u16 (text_or_empty text)

unfoldable pub read_quest_objective : R (MsgQuestObjectiveRecord × List ℕ)
read_quest_objective = do
  objective_id ← pr_read_u32
  state ← pr_read_u8
  reserved0 ← pr_read_bytes 3
  text ← pr_read_string_u16 256
  done (record { objective_id = objective_id; state = state; reserved0 = reserved0 }, text)

unfoldable pub encode_msg_quest_update :
    MsgQuestUpdateHeader → List (MsgQuestObjectiveRecord × Option (List ℕ)) → W
encode_msg_quest_update h objs =
    pw_write_u32 h.quest_id
    and_then pw_write_u16 h.stage
    and_then pw_write_u8 h.tracked
    and_then pw_write_u8 h.objective_count
    and_then write_rows write_quest_objective h.objective_count objs

unfoldable pub decode_msg_quest_update :
    ℕ → R (MsgQuestUpdateHeader × List (MsgQuestObjectiveRecord × List ℕ))
decode_msg_quest_update max_objectives = do
  quest_id ← pr_read_u32
  stage ← pr_read_u16
  tracked ← pr_read_u8
  objective_count ← pr_read_u8
  objs ←
      read_at_most max_objectives (read_rows read_quest_objective objective_count) objective_count
  done (
    record {
      quest_id = quest_id;
      stage = stage;
      tracked = tracked;
      objective_count = objective_count;
    },
    objs,
  )
