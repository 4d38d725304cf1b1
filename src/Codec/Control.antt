-- ===== src/Codec/Control.antt =====
-- shared/protocol/packet_codec.c: the messages of messages_control.h.
pub mod Agree
use f4mp.Base.{ℕ, List}
use f4mp.Codec.Rows.{write_rows, read_rows, read_at_most}
use f4mp.Wire.Writer.{
  W, ◌and_then◌, pw_write_bytes, pw_write_string_u16, pw_write_u16, pw_write_u32, pw_write_u8,
}
use f4mp.Wire.Reader.{
  R, ◌>>=◌, done, pr_read_bytes, pr_read_string_u16, pr_read_u16, pr_read_u32, pr_read_u8,
}
use f4mp.Messages.Control.{
  MsgWelcome, MsgPing, MsgPong, MsgDisconnect, MsgProfileSnapshot, MsgProfileAppearance, MsgHello,
  MsgProfileItemsHeader, MsgProfileItemRecord, MsgProfilePerksHeader, MsgProfilePerkRecord,
}

unfoldable pub encode_msg_welcome : MsgWelcome → W
encode_msg_welcome m =
    pw_write_u32 m.session_id
    and_then pw_write_u16 m.player_id
    and_then pw_write_u16 m.tick_rate
    and_then pw_write_u32 m.rules

unfoldable pub decode_msg_welcome : R MsgWelcome
decode_msg_welcome = do
  session_id ← pr_read_u32
  player_id ← pr_read_u16
  tick_rate ← pr_read_u16
  rules ← pr_read_u32
  done (record {
    session_id = session_id;
    player_id = player_id;
    tick_rate = tick_rate;
    rules = rules;
  })

unfoldable pub encode_msg_ping : MsgPing → W
encode_msg_ping m = pw_write_u32 m.time_ms

unfoldable pub decode_msg_ping : R MsgPing
decode_msg_ping = do time_ms ← pr_read_u32; done (record { time_ms = time_ms })

unfoldable pub encode_msg_pong : MsgPong → W
encode_msg_pong m = pw_write_u32 m.time_ms

unfoldable pub decode_msg_pong : R MsgPong
decode_msg_pong = do time_ms ← pr_read_u32; done (record { time_ms = time_ms })

unfoldable pub encode_msg_disconnect : MsgDisconnect → W
encode_msg_disconnect m = pw_write_u8 m.reason

unfoldable pub decode_msg_disconnect : R MsgDisconnect
decode_msg_disconnect = do reason ← pr_read_u8; done (record { reason = reason })

unfoldable pub encode_msg_profile_snapshot : MsgProfileSnapshot → W
encode_msg_profile_snapshot m =
    pw_write_u32 m.level
    and_then pw_write_u32 m.xp
    and_then pw_write_u32 m.equipped_form_id
    and_then pw_write_u32 m.caps
    and_then pw_write_u8 m.str_stat
    and_then pw_write_u8 m.per_stat
    and_then pw_write_u8 m.end_stat
    and_then pw_write_u8 m.cha_stat
    and_then pw_write_u8 m.int_stat
    and_then pw_write_u8 m.agi_stat
    and_then pw_write_u8 m.luk_stat
    and_then pw_write_u8 m.reserved0

unfoldable pub decode_msg_profile_snapshot : R MsgProfileSnapshot
decode_msg_profile_snapshot = do
  level ← pr_read_u32
  xp ← pr_read_u32
  equipped_form_id ← pr_read_u32
  caps ← pr_read_u32
  str_stat ← pr_read_u8
  per_stat ← pr_read_u8
  end_stat ← pr_read_u8
  cha_stat ← pr_read_u8
  int_stat ← pr_read_u8
  agi_stat ← pr_read_u8
  luk_stat ← pr_read_u8
  reserved0 ← pr_read_u8
  done (record {
    level = level;
    xp = xp;
    equipped_form_id = equipped_form_id;
    caps = caps;
    str_stat = str_stat;
    per_stat = per_stat;
    end_stat = end_stat;
    cha_stat = cha_stat;
    int_stat = int_stat;
    agi_stat = agi_stat;
    luk_stat = luk_stat;
    reserved0 = reserved0;
  })

unfoldable pub encode_msg_profile_appearance : MsgProfileAppearance → W
encode_msg_profile_appearance m =
    pw_write_u8 m.sex and_then pw_write_bytes m.reserved0 and_then pw_write_u32 m.body_preset

unfoldable pub decode_msg_profile_appearance : R MsgProfileAppearance
decode_msg_profile_appearance = do
  sex ← pr_read_u8
  reserved0 ← pr_read_bytes 3
  body_preset ← pr_read_u32
  done (record { sex = sex; reserved0 = reserved0; body_preset = body_preset })

unfoldable pub encode_msg_hello : MsgHello → List ℕ → List ℕ → W
encode_msg_hello m player_guid player_name =
    pw_write_u32 m.build_hash
    and_then pw_write_u32 m.capabilities
    and_then pw_write_string_u16 player_guid
    and_then pw_write_string_u16 player_name

-- The message, the GUID and the name.
unfoldable pub decode_msg_hello : ℕ → ℕ → R (MsgHello × List ℕ × List ℕ)
decode_msg_hello player_guid_cap player_name_cap = do
  build_hash ← pr_read_u32
  capabilities ← pr_read_u32
  player_guid ← pr_read_string_u16 player_guid_cap
  player_name ← pr_read_string_u16 player_name_cap
  done (record { build_hash = build_hash; capabilities = capabilities }, player_guid, player_name)

unfoldable pub write_profile_item : MsgProfileItemRecord → W
write_profile_item m =
    pw_write_u32 m.form_id
    and_then pw_write_u32 m.count
    and_then pw_write_u8 m.equipped
    and_then pw_write_bytes m.reserved0

unfoldable pub read_profile_item : R MsgProfileItemRecord
read_profile_item = do
  form_id ← pr_read_u32
  count ← pr_read_u32
  equipped ← pr_read_u8
  reserved0 ← pr_read_bytes 3
  done (record { form_id = form_id; count = count; equipped = equipped; reserved0 = reserved0 })

unfoldable pub encode_msg_profile_items : MsgProfileItemsHeader → List MsgProfileItemRecord → W
encode_msg_profile_items h items =
    pw_write_u16 h.item_count
    and_then pw_write_u16 h.reserved0
    and_then write_rows write_profile_item h.item_count items

unfoldable pub decode_msg_profile_items : ℕ → R (MsgProfileItemsHeader × List MsgProfileItemRecord)
decode_msg_profile_items max_items = do
  item_count ← pr_read_u16
  reserved0 ← pr_read_u16
  items ← read_at_most max_items (read_rows read_profile_item item_count) item_count
  done (record { item_count = item_count; reserved0 = reserved0 }, items)

unfoldable pub write_profile_perk : MsgProfilePerkRecord → W
write_profile_perk m =
    pw_write_u32 m.perk_form_id and_then pw_write_u8 m.rank and_then pw_write_bytes m.reserved0

unfoldable pub read_profile_perk : R MsgProfilePerkRecord
read_profile_perk = do
  perk_form_id ← pr_read_u32
  rank ← pr_read_u8
  reserved0 ← pr_read_bytes 3
  done (record { perk_form_id = perk_form_id; rank = rank; reserved0 = reserved0 })

unfoldable pub encode_msg_profile_perks : MsgProfilePerksHeader → List MsgProfilePerkRecord → W
encode_msg_profile_perks h perks =
    pw_write_u16 h.perk_count
    and_then pw_write_u16 h.reserved0
    and_then write_rows write_profile_perk h.perk_count perks

unfoldable pub decode_msg_profile_perks : ℕ → R (MsgProfilePerksHeader × List MsgProfilePerkRecord)
decode_msg_profile_perks max_perks = do
  perk_count ← pr_read_u16
  reserved0 ← pr_read_u16
  perks ← read_at_most max_perks (read_rows read_profile_perk perk_count) perk_count
  done (record { perk_count = perk_count; reserved0 = reserved0 }, perks)
