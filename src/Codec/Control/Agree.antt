-- ===== src/Codec/Control/Agree.antt =====
-- shared/protocol/packet_codec.c: lemmas on the encoders and decoders of messages_control.h.
use f4mp.Base.{ℕ, ◌+◌, arith, ◌<◌, ◌≤◌, ◌≡◌, List, length, All, ◌^◌}
use f4mp.Codec.Rows.{array-Codes, total}
use f4mp.Wire.Codes.{Codes, Codes-map, Codes-cons, Codes-resize}
use f4mp.Wire.Fields.{bytes-Codes, string_u16-Codes, u16-Codes, u32-Codes, u8-Codes, IsCString}
use f4mp.Messages.Control.{
  MsgWelcome, MsgPing, MsgPong, MsgDisconnect, MsgProfileSnapshot, MsgProfileAppearance, MsgHello,
  MsgProfileItemsHeader, MsgProfileItemRecord, MsgProfilePerksHeader, MsgProfilePerkRecord,
  IsMsgWelcome, IsMsgPing, IsMsgPong, IsMsgDisconnect, IsMsgProfileSnapshot, IsMsgProfileAppearance,
  IsMsgHello, IsMsgProfileItemsHeader, IsMsgProfileItemRecord, IsMsgProfilePerksHeader,
  IsMsgProfilePerkRecord,
}
use f4mp.Codec.Control.{
  encode_msg_welcome, decode_msg_welcome, encode_msg_ping, decode_msg_ping, encode_msg_pong,
  decode_msg_pong, encode_msg_disconnect, decode_msg_disconnect, encode_msg_profile_snapshot,
  decode_msg_profile_snapshot, encode_msg_profile_appearance, decode_msg_profile_appearance,
  encode_msg_hello, decode_msg_hello, write_profile_item, read_profile_item,
  encode_msg_profile_items, decode_msg_profile_items, write_profile_perk, read_profile_perk,
  encode_msg_profile_perks, decode_msg_profile_perks,
}

pub msg_welcome-Codes :
    (m : MsgWelcome) → IsMsgWelcome m → Codes (encode_msg_welcome m) decode_msg_welcome m 12
unfolding encode_msg_welcome decode_msg_welcome
msg_welcome-Codes m h = Codes-cons _ (u32-Codes m.session_id h.session_id) (
    Codes-cons _ (u16-Codes m.player_id h.player_id)
      (Codes-cons _ (u16-Codes m.tick_rate h.tick_rate) (Codes-map _ (u32-Codes m.rules h.rules))))

pub msg_ping-Codes : (m : MsgPing) → IsMsgPing m → Codes (encode_msg_ping m) decode_msg_ping m 4
unfolding encode_msg_ping decode_msg_ping
msg_ping-Codes m h = Codes-map _ (u32-Codes m.time_ms h.time_ms)

pub msg_pong-Codes : (m : MsgPong) → IsMsgPong m → Codes (encode_msg_pong m) decode_msg_pong m 4
unfolding encode_msg_pong decode_msg_pong
msg_pong-Codes m h = Codes-map _ (u32-Codes m.time_ms h.time_ms)

pub msg_disconnect-Codes :
    (m : MsgDisconnect)
    → IsMsgDisconnect m
    → Codes (encode_msg_disconnect m) decode_msg_disconnect m 1
unfolding encode_msg_disconnect decode_msg_disconnect
msg_disconnect-Codes m h = Codes-map _ (u8-Codes m.reason h.reason)

pub msg_profile_snapshot-Codes :
    (m : MsgProfileSnapshot)
    → IsMsgProfileSnapshot m
    → Codes (encode_msg_profile_snapshot m) decode_msg_profile_snapshot m 24
unfolding encode_msg_profile_snapshot decode_msg_profile_snapshot
msg_profile_snapshot-Codes m h = Codes-cons _ (u32-Codes m.level h.level) (
    Codes-cons _ (u32-Codes m.xp h.xp) (
      Codes-cons _ (u32-Codes m.equipped_form_id h.equipped_form_id) (
        Codes-cons _ (u32-Codes m.caps h.caps) (
          Codes-cons _ (u8-Codes m.str_stat h.str_stat) (
            Codes-cons _ (u8-Codes m.per_stat h.per_stat) (
              Codes-cons _ (u8-Codes m.end_stat h.end_stat) (
                Codes-cons _ (u8-Codes m.cha_stat h.cha_stat) (
                  Codes-cons _ (u8-Codes m.int_stat h.int_stat) (
                    Codes-cons _ (u8-Codes m.agi_stat h.agi_stat) (
                      Codes-cons _ (u8-Codes m.luk_stat h.luk_stat)
                        (Codes-map _ (u8-Codes m.reserved0 h.reserved0))))))))))))

pub msg_profile_appearance-Codes :
    (m : MsgProfileAppearance)
    → IsMsgProfileAppearance m
    → Codes (encode_msg_profile_appearance m) decode_msg_profile_appearance m 8
unfolding encode_msg_profile_appearance decode_msg_profile_appearance
msg_profile_appearance-Codes m h = Codes-cons _ (u8-Codes m.sex h.sex) (
    Codes-cons _ (bytes-Codes m.reserved0 h.reserved0)
      (Codes-map _ (u32-Codes m.body_preset h.body_preset)))

-- A hello whose fields are in range, and whose GUID and name have no zero byte and fit the receiver,
-- is written as 12 bytes and the two texts, where they fit the writer, refused
-- where they do not, and read back as the same message with the reader behind them; bytes that are cut
-- short are refused.
pub msg_hello-Codes :
    (m : MsgHello) (guid name : List ℕ) (guid_cap name_cap : ℕ)
    → IsMsgHello m
    → IsCString guid
    → IsCString name
    → length guid < guid_cap
    → length name < name_cap
    → length guid < 2 ^ 16
    → length name < 2 ^ 16
    → Codes
        (encode_msg_hello m guid name)
        (decode_msg_hello guid_cap name_cap)
        (m, guid, name)
        (12 + length guid + length name)
unfolding encode_msg_hello decode_msg_hello
msg_hello-Codes m guid name guid_cap name_cap h g n gc nc gs ns = Codes-resize (omega arith) (
    Codes-cons _ (u32-Codes m.build_hash h.build_hash) (
      Codes-cons _ (u32-Codes m.capabilities h.capabilities) (
        Codes-cons _ (string_u16-Codes guid guid_cap g gc gs)
          (Codes-map _ (string_u16-Codes name name_cap n nc ns)))))

profile_item-Codes :
    (m : MsgProfileItemRecord)
    → IsMsgProfileItemRecord m
    → Codes (write_profile_item m) read_profile_item m 12
unfolding write_profile_item read_profile_item
profile_item-Codes m h = Codes-cons _ (u32-Codes m.form_id h.form_id) (
    Codes-cons _ (u32-Codes m.count h.count) (
      Codes-cons _ (u8-Codes m.equipped h.equipped)
        (Codes-map _ (bytes-Codes m.reserved0 h.reserved0))))

pub msg_profile_items-Codes :
    (m : MsgProfileItemsHeader) (items : List MsgProfileItemRecord) (max_items : ℕ)
    → IsMsgProfileItemsHeader m
    → m.item_count ≡ length items
    → m.item_count ≤ max_items
    → All IsMsgProfileItemRecord items
    → Codes
        (encode_msg_profile_items m items)
        (decode_msg_profile_items max_items)
        (m, items)
        (4 + total (λ _. 12) items)
unfolding encode_msg_profile_items decode_msg_profile_items
msg_profile_items-Codes m items max_items h e room good = Codes-resize (omega arith) (
    Codes-cons _ (u16-Codes m.item_count h.item_count) (
      Codes-cons _ (u16-Codes m.reserved0 h.reserved0) (
        Codes-map _ (
          array-Codes (λ _. 12) IsMsgProfileItemRecord write_profile_item read_profile_item
            profile_item-Codes items good m.item_count max_items e room))))

profile_perk-Codes :
    (m : MsgProfilePerkRecord)
    → IsMsgProfilePerkRecord m
    → Codes (write_profile_perk m) read_profile_perk m 8
unfolding write_profile_perk read_profile_perk
profile_perk-Codes m h =
    Codes-cons _ (u32-Codes m.perk_form_id h.perk_form_id)
      (Codes-cons _ (u8-Codes m.rank h.rank) (Codes-map _ (bytes-Codes m.reserved0 h.reserved0)))

pub msg_profile_perks-Codes :
    (m : MsgProfilePerksHeader) (perks : List MsgProfilePerkRecord) (max_perks : ℕ)
    → IsMsgProfilePerksHeader m
    → m.perk_count ≡ length perks
    → m.perk_count ≤ max_perks
    → All IsMsgProfilePerkRecord perks
    → Codes
        (encode_msg_profile_perks m perks)
        (decode_msg_profile_perks max_perks)
        (m, perks)
        (4 + total (λ _. 8) perks)
unfolding encode_msg_profile_perks decode_msg_profile_perks
msg_profile_perks-Codes m perks max_perks h e room good = Codes-resize (omega arith) (
    Codes-cons _ (u16-Codes m.perk_count h.perk_count) (
      Codes-cons _ (u16-Codes m.reserved0 h.reserved0) (
        Codes-map _ (
          array-Codes (λ _. 8) IsMsgProfilePerkRecord write_profile_perk read_profile_perk
            profile_perk-Codes perks good m.perk_count max_perks e room))))
