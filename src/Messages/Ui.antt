-- ===== src/Messages/Ui.antt =====
-- shared/protocol/messages_ui.h: the structs that cross the wire.
use f4mp.Base.{ℕ, ◌^◌, ◌<◌, List}
use f4mp.Messages.Types.{Holds}

pub record MsgDialogueOpen : Type 0 where
  pub dialogue_id : ℕ
  pub npc_actor_net_id : ℕ
  pub speaker_actor_net_id : ℕ

-- Each field is in the range of its C type.
pub record IsMsgDialogueOpen (m : MsgDialogueOpen) : Type 0 where
  pub dialogue_id : m.dialogue_id < 2 ^ 32
  pub npc_actor_net_id : m.npc_actor_net_id < 2 ^ 32
  pub speaker_actor_net_id : m.speaker_actor_net_id < 2 ^ 32

pub record MsgDialogueLine : Type 0 where
  pub dialogue_id : ℕ
  pub speaker_actor_net_id : ℕ

-- Each field is in the range of its C type.
pub record IsMsgDialogueLine (m : MsgDialogueLine) : Type 0 where
  pub dialogue_id : m.dialogue_id < 2 ^ 32
  pub speaker_actor_net_id : m.speaker_actor_net_id < 2 ^ 32

pub record MsgDialogueChoicesHeader : Type 0 where
  pub dialogue_id : ℕ
  pub choice_count : ℕ
  pub reserved0 : ℕ

-- Each field is in the range of its C type.
pub record IsMsgDialogueChoicesHeader (m : MsgDialogueChoicesHeader) : Type 0 where
  pub dialogue_id : m.dialogue_id < 2 ^ 32
  pub choice_count : m.choice_count < 2 ^ 16
  pub reserved0 : m.reserved0 < 2 ^ 16

pub record MsgDialogueChoiceRecord : Type 0 where
  pub choice_id : ℕ
  pub enabled : ℕ
  pub reserved0 : List ℕ

-- Each field is in the range of its C type.
pub record IsMsgDialogueChoiceRecord (m : MsgDialogueChoiceRecord) : Type 0 where
  pub choice_id : m.choice_id < 2 ^ 32
  pub enabled : m.enabled < 2 ^ 8
  pub reserved0 : Holds 3 m.reserved0

pub record MsgDialogueSelect : Type 0 where
  pub dialogue_id : ℕ
  pub choice_id : ℕ

-- Each field is in the range of its C type.
pub record IsMsgDialogueSelect (m : MsgDialogueSelect) : Type 0 where
  pub dialogue_id : m.dialogue_id < 2 ^ 32
  pub choice_id : m.choice_id < 2 ^ 32

pub record MsgDialogueClose : Type 0 where
  pub dialogue_id : ℕ
  pub reason : ℕ
  pub reserved0 : List ℕ

-- Each field is in the range of its C type.
pub record IsMsgDialogueClose (m : MsgDialogueClose) : Type 0 where
  pub dialogue_id : m.dialogue_id < 2 ^ 32
  pub reason : m.reason < 2 ^ 8
  pub reserved0 : Holds 3 m.reserved0

pub record MsgQuestUpdateHeader : Type 0 where
  pub quest_id : ℕ
  pub stage : ℕ
  pub tracked : ℕ
  pub objective_count : ℕ

-- Each field is in the range of its C type.
pub record IsMsgQuestUpdateHeader (m : MsgQuestUpdateHeader) : Type 0 where
  pub quest_id : m.quest_id < 2 ^ 32
  pub stage : m.stage < 2 ^ 16
  pub tracked : m.tracked < 2 ^ 8
  pub objective_count : m.objective_count < 2 ^ 8

pub record MsgQuestObjectiveRecord : Type 0 where
  pub objective_id : ℕ
  pub state : ℕ
  pub reserved0 : List ℕ

-- Each field is in the range of its C type.
pub record IsMsgQuestObjectiveRecord (m : MsgQuestObjectiveRecord) : Type 0 where
  pub objective_id : m.objective_id < 2 ^ 32
  pub state : m.state < 2 ^ 8
  pub reserved0 : Holds 3 m.reserved0
