-- ===== src/Codec/Header/Agree.antt =====
-- shared/protocol/packet_codec.c: lemmas on the encoders and decoders of packet_header.h.
use f4mp.Wire.Codes.{Codes, Codes-map, Codes-cons}
use f4mp.Wire.Fields.{bytes-Codes, u16-Codes, u32-Codes, u8-Codes}
use f4mp.Messages.Header.{PacketHeader, MessageHeader, IsPacketHeader, IsMessageHeader}
use f4mp.Codec.Header.{
  encode_packet_header, decode_packet_header, encode_message_header, decode_message_header,
}

-- A packet header whose fields are in range is written as 28 bytes, where they fit the writer, refused
-- where they do not, and read back as the same message with the reader behind them; bytes that are cut
-- short are refused.
pub packet_header-Codes :
    (m : PacketHeader) → IsPacketHeader m → Codes (encode_packet_header m) decode_packet_header m 28
unfolding encode_packet_header decode_packet_header
packet_header-Codes m h = Codes-cons _ (u32-Codes m.magic h.magic) (
    Codes-cons _ (u16-Codes m.version h.version) (
      Codes-cons _ (u16-Codes m.flags h.flags) (
        Codes-cons _ (u32-Codes m.session_id h.session_id) (
          Codes-cons _ (u32-Codes m.sequence h.sequence) (
            Codes-cons _ (u32-Codes m.ack h.ack) (
              Codes-cons _ (u32-Codes m.ack_bits h.ack_bits) (
                Codes-cons _ (u8-Codes m.message_count h.message_count)
                  (Codes-map _ (bytes-Codes m.reserved h.reserved)))))))))

pub message_header-Codes :
    (m : MessageHeader)
    → IsMessageHeader m
    → Codes (encode_message_header m) decode_message_header m 6
unfolding encode_message_header decode_message_header
message_header-Codes m h =
    Codes-cons _ (u16-Codes m.type h.type)
      (Codes-cons _ (u16-Codes m.flags h.flags) (Codes-map _ (u16-Codes m.length h.length)))
