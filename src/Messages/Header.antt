-- ===== src/Messages/Header.antt =====
-- shared/protocol/packet_header.h: the structs that cross the wire.
use f4mp.Base.{ℕ, ◌^◌, ◌<◌, List}
use f4mp.Messages.Types.{Holds}

pub record PacketHeader : Type 0 where
  pub magic : ℕ
  pub version : ℕ
  pub flags : ℕ
  pub session_id : ℕ
  pub sequence : ℕ
  pub ack : ℕ
  pub ack_bits : ℕ
  pub message_count : ℕ
  pub reserved : List ℕ

-- Each field is in the range of its C type.
pub record IsPacketHeader (m : PacketHeader) : Type 0 where
  pub magic : m.magic < 2 ^ 32
  pub version : m.version < 2 ^ 16
  pub flags : m.flags < 2 ^ 16
  pub session_id : m.session_id < 2 ^ 32
  pub sequence : m.sequence < 2 ^ 32
  pub ack : m.ack < 2 ^ 32
  pub ack_bits : m.ack_bits < 2 ^ 32
  pub message_count : m.message_count < 2 ^ 8
  pub reserved : Holds 3 m.reserved

pub record MessageHeader : Type 0 where
  pub type : ℕ
  pub flags : ℕ
  pub length : ℕ

-- Each field is in the range of its C type.
pub record IsMessageHeader (m : MessageHeader) : Type 0 where
  pub type : m.type < 2 ^ 16
  pub flags : m.flags < 2 ^ 16
  pub length : m.length < 2 ^ 16
