-- ===== src/Client/Movement/Packet.antt =====
-- The packets of plugin/src/movement_sync_bridge.c and those of the framing that service and plugin
-- share.
use mathlib.Core.List.{append_assoc}
use f4mp.Base.{
  ℕ, ◌-◌, ◌%◌, ◌^◌, ◌≤◌, ◌<◌, ◌≡◌, refl, sym, ap, ◌∙◌, true, false, some, [], ◌++◌, arith, length,
  length-append, ltb,
}
use f4mp.Wire.Writer.{pw_init, pw_bytes_written}
use f4mp.Wire.Codes.{Codes, writer_at}
use f4mp.Messages.Header.{PacketHeader, IsPacketHeader}
use f4mp.Messages.Player.{MsgPlayerState, IsMsgPlayerState}
use f4mp.Codec.Header.{encode_packet_header, decode_packet_header}
use f4mp.Codec.Header.Agree.{packet_header-Codes}
use f4mp.Codec.Player.{encode_msg_player_state, decode_msg_player_state}
use f4mp.Codec.Player.Agree.{msg_player_state-Codes}
use f4mp.Service.Transport.{framed, overwrite}
use f4mp.Service.Transport.Frames.{
  overwrite_lem, header_bytes, header_bytes-length, header-Writes, frame_bytes, sized, framed_lem,
}
use f4mp.Client.Movement.{
  msb_encode_player_state_packet, player_packet_header, player_message_header,
}

client_header-IsPacketHeader :
    (session_id sequence : ℕ)
    → session_id < 2 ^ 32
    → sequence < 2 ^ 32
    → IsPacketHeader (player_packet_header session_id sequence)
client_header-IsPacketHeader session_id sequence sid q = record {
  magic = omega arith;
  version = omega arith;
  flags = omega arith;
  session_id = sid;
  sequence = q;
  ack = omega arith;
  ack_bits = omega arith;
  message_count = omega arith;
  reserved = refl;
}

module _ {msg : MsgPlayerState} {ph : PacketHeader}
    (h : Codes (encode_packet_header ph) decode_packet_header ph 28)
    (k : Codes (encode_msg_player_state msg) decode_msg_player_state msg 60) where
  -- The second header is written twice, the second time with the length.
  rewritten :
      (n : ℕ)
      → overwrite
          (length h.bytes)
          (header_bytes (sized player_message_header n))
          ((h.bytes ++ header_bytes player_message_header) ++ k.bytes)
        ≡ frame_bytes h.bytes (sized player_message_header n) k.bytes
  unfolding frame_bytes
  rewritten n =
      let six = header_bytes-length player_message_header in
      let six' = header_bytes-length (sized player_message_header n) in
      ap (overwrite (length h.bytes) (header_bytes (sized player_message_header n)))
        (append_assoc h.bytes (header_bytes player_message_header) k.bytes)
      ∙ overwrite_lem h.bytes (header_bytes player_message_header) k.bytes
          (header_bytes (sized player_message_header n)) (omega (arith, six, six'))

-- For a message whose fields are in range, the bridge's packet, built in a buffer of at least 94 bytes,
-- is the one that the framing of the transport client and of the service makes, which overwrites the
-- two bytes of the length alone.
pub msb_encode_player_state_packet-framed :
    (capacity session_id sequence : ℕ) (msg : MsgPlayerState)
    → 94 ≤ capacity
    → session_id < 2 ^ 32
    → sequence < 2 ^ 32
    → IsMsgPlayerState msg
    → framed
        (player_packet_header session_id sequence)
        player_message_header
        (encode_msg_player_state msg)
      ≡ some (msb_encode_player_state_packet capacity session_id sequence msg)
unfolding msb_encode_player_state_packet pw_init pw_bytes_written header_bytes
msb_encode_player_state_packet-framed capacity session_id sequence msg room sid q m =
    let ph = player_packet_header session_id sequence in
    let h = packet_header-Codes ph (client_header-IsPacketHeader session_id sequence sid q) in
    let k = msg_player_state-Codes msg m in
    let hs = h.sized in
    let ks = k.sized in
    let front = h.bytes ++ header_bytes player_message_header in
    let six = header_bytes-length player_message_header in
    let sizes = length-append h.bytes (header_bytes player_message_header) in
    let both = length-append front k.bytes in
    let one : encode_packet_header ph (writer_at [] capacity) ≡ (true, writer_at h.bytes capacity) =
      h.writes.fits [] capacity (omega arith) in
    let two = (header-Writes player_message_header).fits h.bytes capacity (omega arith) in
    let three = k.writes.fits front capacity (omega arith) in
    let enough : ltb capacity 94 ≡ false = ground arith in
    let len : (length (front ++ k.bytes) - length front) % 2 ^ 16 ≡ 60 = omega arith in
    framed_lem k ph player_message_header h (omega arith)
    ∙ rw (one, two, three, enough)
        (ap some (
          sym (
            ap
              (λ n.
                overwrite (length h.bytes) (header_bytes (sized player_message_header n))
                  (front ++ k.bytes))
              len
            ∙ rewritten h k 60)))
