-- ===== src/Codec/Header.antt =====
-- shared/protocol/packet_codec.c: the messages of packet_header.h.
pub mod Agree
use f4mp.Wire.Writer.{W, ◌and_then◌, pw_write_bytes, pw_write_u16, pw_write_u32, pw_write_u8}
use f4mp.Wire.Reader.{R, ◌>>=◌, done, pr_read_bytes, pr_read_u16, pr_read_u32, pr_read_u8}
use f4mp.Messages.Header.{PacketHeader, MessageHeader}

unfoldable pub encode_packet_header : PacketHeader → W
encode_packet_header m =
    pw_write_u32 m.magic
    and_then pw_write_u16 m.version
    and_then pw_write_u16 m.flags
    and_then pw_write_u32 m.session_id
    and_then pw_write_u32 m.sequence
    and_then pw_write_u32 m.ack
    and_then pw_write_u32 m.ack_bits
    and_then pw_write_u8 m.message_count
    and_then pw_write_bytes m.reserved

unfoldable pub decode_packet_header : R PacketHeader
decode_packet_header = do
  magic ← pr_read_u32
  version ← pr_read_u16
  flags ← pr_read_u16
  session_id ← pr_read_u32
  sequence ← pr_read_u32
  ack ← pr_read_u32
  ack_bits ← pr_read_u32
  message_count ← pr_read_u8
  reserved ← pr_read_bytes 3
  done (record {
    magic = magic;
    version = version;
    flags = flags;
    session_id = session_id;
    sequence = sequence;
    ack = ack;
    ack_bits = ack_bits;
    message_count = message_count;
    reserved = reserved;
  })

unfoldable pub encode_message_header : MessageHeader → W
encode_message_header m =
    pw_write_u16 m.type and_then pw_write_u16 m.flags and_then pw_write_u16 m.length

unfoldable pub decode_message_header : R MessageHeader
decode_message_header = do
  type ← pr_read_u16
  flags ← pr_read_u16
  length ← pr_read_u16
  done (record { type = type; flags = flags; length = length })
