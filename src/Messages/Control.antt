-- ===== src/Messages/Control.antt =====
-- shared/protocol/messages_control.h: the structs that cross the wire.
use f4mp.Base.{ℕ, ◌^◌, ◌<◌, List}
use f4mp.Messages.Types.{Holds}

pub record MsgHello : Type 0 where
  pub build_hash : ℕ
  pub capabilities : ℕ

-- Each field is in the range of its C type.
pub record IsMsgHello (m : MsgHello) : Type 0 where
  pub build_hash : m.build_hash < 2 ^ 32
  pub capabilities : m.capabilities < 2 ^ 32

pub record MsgProfileSnapshot : Type 0 where
  pub level : ℕ
  pub xp : ℕ
  pub equipped_form_id : ℕ
  pub caps : ℕ
  pub str_stat : ℕ
  pub per_stat : ℕ
  pub end_stat : ℕ
  pub cha_stat : ℕ
  pub int_stat : ℕ
  pub agi_stat : ℕ
  pub luk_stat : ℕ
  pub reserved0 : ℕ

-- Each field is in the range of its C type.
pub record IsMsgProfileSnapshot (m : MsgProfileSnapshot) : Type 0 where
  pub level : m.level < 2 ^ 32
  pub xp : m.xp < 2 ^ 32
  pub equipped_form_id : m.equipped_form_id < 2 ^ 32
  pub caps : m.caps < 2 ^ 32
  pub str_stat : m.str_stat < 2 ^ 8
  pub per_stat : m.per_stat < 2 ^ 8
  pub end_stat : m.end_stat < 2 ^ 8
  pub cha_stat : m.cha_stat < 2 ^ 8
  pub int_stat : m.int_stat < 2 ^ 8
  pub agi_stat : m.agi_stat < 2 ^ 8
  pub luk_stat : m.luk_stat < 2 ^ 8
  pub reserved0 : m.reserved0 < 2 ^ 8

pub record MsgProfileItemsHeader : Type 0 where
  pub item_count : ℕ
  pub reserved0 : ℕ

-- Each field is in the range of its C type.
pub record IsMsgProfileItemsHeader (m : MsgProfileItemsHeader) : Type 0 where
  pub item_count : m.item_count < 2 ^ 16
  pub reserved0 : m.reserved0 < 2 ^ 16

pub record MsgProfileItemRecord : Type 0 where
  pub form_id : ℕ
  pub count : ℕ
  pub equipped : ℕ
  pub reserved0 : List ℕ

-- Each field is in the range of its C type.
pub record IsMsgProfileItemRecord (m : MsgProfileItemRecord) : Type 0 where
  pub form_id : m.form_id < 2 ^ 32
  pub count : m.count < 2 ^ 32
  pub equipped : m.equipped < 2 ^ 8
  pub reserved0 : Holds 3 m.reserved0

pub record MsgProfilePerksHeader : Type 0 where
  pub perk_count : ℕ
  pub reserved0 : ℕ

-- Each field is in the range of its C type.
pub record IsMsgProfilePerksHeader (m : MsgProfilePerksHeader) : Type 0 where
  pub perk_count : m.perk_count < 2 ^ 16
  pub reserved0 : m.reserved0 < 2 ^ 16

pub record MsgProfilePerkRecord : Type 0 where
  pub perk_form_id : ℕ
  pub rank : ℕ
  pub reserved0 : List ℕ

-- Each field is in the range of its C type.
pub record IsMsgProfilePerkRecord (m : MsgProfilePerkRecord) : Type 0 where
  pub perk_form_id : m.perk_form_id < 2 ^ 32
  pub rank : m.rank < 2 ^ 8
  pub reserved0 : Holds 3 m.reserved0

pub record MsgProfileAppearance : Type 0 where
  pub sex : ℕ
  pub reserved0 : List ℕ
  pub body_preset : ℕ

-- Each field is in the range of its C type.
pub record IsMsgProfileAppearance (m : MsgProfileAppearance) : Type 0 where
  pub sex : m.sex < 2 ^ 8
  pub reserved0 : Holds 3 m.reserved0
  pub body_preset : m.body_preset < 2 ^ 32

pub record MsgWelcome : Type 0 where
  pub session_id : ℕ
  pub player_id : ℕ
  pub tick_rate : ℕ
  pub rules : ℕ

-- Each field is in the range of its C type.
pub record IsMsgWelcome (m : MsgWelcome) : Type 0 where
  pub session_id : m.session_id < 2 ^ 32
  pub player_id : m.player_id < 2 ^ 16
  pub tick_rate : m.tick_rate < 2 ^ 16
  pub rules : m.rules < 2 ^ 32

pub record MsgPing : Type 0 where
  pub time_ms : ℕ

-- Each field is in the range of its C type.
pub record IsMsgPing (m : MsgPing) : Type 0 where
  pub time_ms : m.time_ms < 2 ^ 32

pub record MsgPong : Type 0 where
  pub time_ms : ℕ

-- Each field is in the range of its C type.
pub record IsMsgPong (m : MsgPong) : Type 0 where
  pub time_ms : m.time_ms < 2 ^ 32

pub record MsgDisconnect : Type 0 where
  pub reason : ℕ

-- Each field is in the range of its C type.
pub record IsMsgDisconnect (m : MsgDisconnect) : Type 0 where
  pub reason : m.reason < 2 ^ 8
