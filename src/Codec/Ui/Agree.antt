-- ===== src/Codec/Ui/Agree.antt =====
-- shared/protocol/packet_codec.c: lemmas on the encoders and decoders of messages_ui.h.
use f4mp.Base.{ℕ, ◌+◌, arith, ◌<◌, ◌≤◌, ◌≡◌, List, Option, length, All, map}
use f4mp.Codec.Rows.{sent_array-Codes, total}
use f4mp.Wire.Writer.{pw_write_string_u16}
use f4mp.Wire.Reader.{pr_read_string_u16}
use f4mp.Wire.Codes.{Codes, Codes-map, Codes-cons, Codes-resize}
use f4mp.Wire.Fields.{bytes-Codes, string_u16-Codes, u16-Codes, u32-Codes, u8-Codes, IsCString}
use f4mp.Messages.Ui.{
  MsgDialogueOpen, MsgDialogueSelect, MsgDialogueClose, MsgDialogueLine, MsgDialogueChoicesHeader,
  MsgDialogueChoiceRecord, MsgQuestUpdateHeader, MsgQuestObjectiveRecord, IsMsgDialogueOpen,
  IsMsgDialogueSelect, IsMsgDialogueClose, IsMsgDialogueLine, IsMsgDialogueChoicesHeader,
  IsMsgDialogueChoiceRecord, IsMsgQuestUpdateHeader, IsMsgQuestObjectiveRecord,
}
use f4mp.Codec.Ui.{
  encode_msg_dialogue_open, decode_msg_dialogue_open, encode_msg_dialogue_select,
  decode_msg_dialogue_select, encode_msg_dialogue_close, decode_msg_dialogue_close,
  encode_msg_dialogue_line, decode_msg_dialogue_line, text_or_empty, write_dialogue_choice,
  read_dialogue_choice, encode_msg_dialogue_choices, decode_msg_dialogue_choices,
  write_quest_objective, read_quest_objective, encode_msg_quest_update, decode_msg_quest_update,
}

pub msg_dialogue_open-Codes :
    (m : MsgDialogueOpen)
    → IsMsgDialogueOpen m
    → Codes (encode_msg_dialogue_open m) decode_msg_dialogue_open m 12
unfolding encode_msg_dialogue_open decode_msg_dialogue_open
msg_dialogue_open-Codes m h = Codes-cons _ (u32-Codes m.dialogue_id h.dialogue_id) (
    Codes-cons _ (u32-Codes m.npc_actor_net_id h.npc_actor_net_id)
      (Codes-map _ (u32-Codes m.speaker_actor_net_id h.speaker_actor_net_id)))

pub msg_dialogue_select-Codes :
    (m : MsgDialogueSelect)
    → IsMsgDialogueSelect m
    → Codes (encode_msg_dialogue_select m) decode_msg_dialogue_select m 8
unfolding encode_msg_dialogue_select decode_msg_dialogue_select
msg_dialogue_select-Codes m h =
    Codes-cons _ (u32-Codes m.dialogue_id h.dialogue_id)
      (Codes-map _ (u32-Codes m.choice_id h.choice_id))

pub msg_dialogue_close-Codes :
    (m : MsgDialogueClose)
    → IsMsgDialogueClose m
    → Codes (encode_msg_dialogue_close m) decode_msg_dialogue_close m 8
unfolding encode_msg_dialogue_close decode_msg_dialogue_close
msg_dialogue_close-Codes m h =
    Codes-cons _ (u32-Codes m.dialogue_id h.dialogue_id) (
      Codes-cons _ (u8-Codes m.reason h.reason) (Codes-map _ (bytes-Codes m.reserved0 h.reserved0)))

-- A text that fits the receiver's array of `cap` bytes.
abbrev pub IsText : ℕ → Option (List ℕ) → Type 0
IsText cap text =
    IsCString (text_or_empty text) × (length (text_or_empty text) < cap) × (cap ≤ 65536)

text-Codes :
    (text : Option (List ℕ)) (cap : ℕ)
    → IsText cap text
    → Codes
        (pw_write_string_u16 (text_or_empty text))
        (pr_read_string_u16 cap)
        (text_or_empty text)
        (2 + length (text_or_empty text))
text-Codes text cap h = string_u16-Codes (text_or_empty text) cap h.0 h.1 (omega arith)

pub msg_dialogue_line-Codes :
    (m : MsgDialogueLine) (text : Option (List ℕ)) (cap : ℕ)
    → IsMsgDialogueLine m
    → IsText cap text
    → Codes
        (encode_msg_dialogue_line m text)
        (decode_msg_dialogue_line cap)
        (m, text_or_empty text)
        (10 + length (text_or_empty text))
unfolding encode_msg_dialogue_line decode_msg_dialogue_line
msg_dialogue_line-Codes m text cap h t = Codes-resize (omega arith) (
    Codes-cons _ (u32-Codes m.dialogue_id h.dialogue_id) (
      Codes-cons _ (u32-Codes m.speaker_actor_net_id h.speaker_actor_net_id)
        (Codes-map _ (text-Codes text cap t))))

-- What a row reads back as: a null text as the empty one.
abbrev pub with_text {ℓ} : {A : Type ℓ} → A × Option (List ℕ) → A × List ℕ
with_text (a, text) = (a, text_or_empty text)

-- A row: four bytes of identifier, a byte of state, three reserved, and the text.
abbrev pub row_size {ℓ} : {A : Type ℓ} → A × Option (List ℕ) → ℕ
row_size (a, text) = 10 + length (text_or_empty text)

dialogue_choice-Codes :
    (c : MsgDialogueChoiceRecord × Option (List ℕ))
    → IsMsgDialogueChoiceRecord c.0 × IsText 256 c.1
    → Codes (write_dialogue_choice c) read_dialogue_choice (with_text c) (row_size c)
unfolding write_dialogue_choice read_dialogue_choice
dialogue_choice-Codes (m, text) (h, t) = Codes-resize (omega arith) (
    Codes-cons _ (u32-Codes m.choice_id h.choice_id) (
      Codes-cons _ (u8-Codes m.enabled h.enabled)
        (Codes-cons _ (bytes-Codes m.reserved0 h.reserved0) (Codes-map _ (text-Codes text 256 t)))))

-- Choices whose fields are in range, whose count is right and within the receiver's room, and whose
-- texts fit it, are written as 8 bytes and 10 and the text for each choice, where they fit the writer, refused
-- where they do not, and read back as the same message with the reader behind them; bytes that are cut
-- short are refused.
pub msg_dialogue_choices-Codes :
    (m : MsgDialogueChoicesHeader) (choices : List (MsgDialogueChoiceRecord × Option (List ℕ)))
    (max_choices : ℕ)
    → IsMsgDialogueChoicesHeader m
    → m.choice_count ≡ length choices
    → m.choice_count ≤ max_choices
    → All (λ c. IsMsgDialogueChoiceRecord c.0 × IsText 256 c.1) choices
    → Codes
        (encode_msg_dialogue_choices m choices)
        (decode_msg_dialogue_choices max_choices)
        (m, map with_text choices)
        (8 + total row_size choices)
unfolding encode_msg_dialogue_choices decode_msg_dialogue_choices
msg_dialogue_choices-Codes m choices max_choices h e room good = Codes-resize (omega arith) (
    Codes-cons _ (u32-Codes m.dialogue_id h.dialogue_id) (
      Codes-cons _ (u16-Codes m.choice_count h.choice_count) (
        Codes-cons _ (u16-Codes m.reserved0 h.reserved0) (
          Codes-map _ (
            sent_array-Codes with_text row_size _ write_dialogue_choice read_dialogue_choice
              dialogue_choice-Codes choices good m.choice_count max_choices e room)))))

quest_objective-Codes :
    (c : MsgQuestObjectiveRecord × Option (List ℕ))
    → IsMsgQuestObjectiveRecord c.0 × IsText 256 c.1
    → Codes (write_quest_objective c) read_quest_objective (with_text c) (row_size c)
unfolding write_quest_objective read_quest_objective
quest_objective-Codes (m, text) (h, t) = Codes-resize (omega arith) (
    Codes-cons _ (u32-Codes m.objective_id h.objective_id) (
      Codes-cons _ (u8-Codes m.state h.state)
        (Codes-cons _ (bytes-Codes m.reserved0 h.reserved0) (Codes-map _ (text-Codes text 256 t)))))

-- A quest update whose fields are in range, whose count is right and within the receiver's room, and
-- whose texts fit it, is written as 8 bytes and 10 and the text for each objective, where they fit the writer, refused
-- where they do not, and read back as the same message with the reader behind them; bytes that are cut
-- short are refused.
pub msg_quest_update-Codes :
    (m : MsgQuestUpdateHeader) (objs : List (MsgQuestObjectiveRecord × Option (List ℕ)))
    (max_objectives : ℕ)
    → IsMsgQuestUpdateHeader m
    → m.objective_count ≡ length objs
    → m.objective_count ≤ max_objectives
    → All (λ c. IsMsgQuestObjectiveRecord c.0 × IsText 256 c.1) objs
    → Codes
        (encode_msg_quest_update m objs)
        (decode_msg_quest_update max_objectives)
        (m, map with_text objs)
        (8 + total row_size objs)
unfolding encode_msg_quest_update decode_msg_quest_update
msg_quest_update-Codes m objs max_objectives h e room good = Codes-resize (omega arith) (
    Codes-cons _ (u32-Codes m.quest_id h.quest_id) (
      Codes-cons _ (u16-Codes m.stage h.stage) (
        Codes-cons _ (u8-Codes m.tracked h.tracked) (
          Codes-cons _ (u8-Codes m.objective_count h.objective_count) (
            Codes-map _ (
              sent_array-Codes with_text row_size _ write_quest_objective read_quest_objective
                quest_objective-Codes objs good m.objective_count max_objectives e room))))))
