-- ===== src/Service/Transport/Handle.antt =====
-- service/src/transport_loop.c: tl_handle_envelope. The replay log, which is only written, is left out.
use f4mp.Base.{ℕ, Bool, false, ◌&&◌, none, some, ◌==◌, ltb, if◌then◌else◌}
use f4mp.Wire.Reader.{PacketReader, pr_init}
use f4mp.Messages.Header.{PacketHeader, MessageHeader}
use f4mp.Codec.Header.{decode_packet_header, decode_message_header}
use f4mp.Service.Floats.{Floats}
use f4mp.Service.Transport.{TransportEnvelope, f4mp_magic, f4mp_version}
use f4mp.Service.Transport.Players.{ProfileFiles, tl_find_player_by_connection}
use f4mp.Service.Transport.World.{World, received}
use f4mp.Service.Transport.Requests.{
  on_ping, on_disconnect, on_player_state, on_input_state, on_fire_intent, on_build_request,
  on_object_move, on_object_scrap, on_dialogue_select,
}
use f4mp.Service.Transport.Hello.{on_hello}

unfoldable pub f4mp_validate_packet_header : PacketHeader → Bool
f4mp_validate_packet_header h =
    h.magic == f4mp_magic && h.version == f4mp_version && ltb 0 h.message_count

unfoldable pub f4mp_validate_message_header : MessageHeader → Bool
f4mp_validate_message_header h = ltb 0 h.length

module _ (F : Floats) {Disk : Type 0} (files : ProfileFiles Disk) where
  -- The switch over the type.
  unfoldable pub dispatch : World Disk → ℕ → ℕ → PacketReader → ℕ → Bool × World Disk
  dispatch w connection_id type r player_id =
      if type == 0x0003
      then on_ping w connection_id r player_id
      else if type == 0x0005
      then on_disconnect w r player_id
      else if type == 0x0102
      then on_player_state w r player_id
      else if type == 0x0101
      then on_input_state w r player_id
      else if type == 0x0301
      then on_fire_intent F w r player_id
      else if type == 0x0401
      then on_build_request F w connection_id r player_id
      else if type == 0x0404
      then on_object_move F w r player_id
      else if type == 0x0405
      then on_object_scrap w r player_id
      else if type == 0x0504
      then on_dialogue_select w r player_id
      else (false, w)

  -- What follows once both headers are read and valid.
  unfoldable pub tl_handle_message :
      World Disk → ℕ → MessageHeader → PacketReader → Bool × World Disk
  tl_handle_message w connection_id mh r =
      if mh.type == 0x0001
      then on_hello F files w connection_id r
      else elim (tl_find_player_by_connection w.ctx.session connection_id) [
        | none ↦ (false, w)
        | some p ↦ dispatch w connection_id mh.type r p.player_id
      ]

  -- The second header, once the first is read and valid.
  unfoldable pub tl_handle_packet : World Disk → ℕ → PacketHeader → PacketReader → Bool × World Disk
  tl_handle_packet w connection_id ph r =
      let w' = received w ph.sequence in
      let (mh?, r') = decode_message_header r in
      elim mh? [
        | none ↦ (false, w')
        | some mh ↦
            if f4mp_validate_message_header mh
            then tl_handle_message w' connection_id mh r'
            else (false, w')
      ]

  unfoldable pub tl_handle_envelope : World Disk → TransportEnvelope → Bool × World Disk
  tl_handle_envelope w env =
      let (ph?, r) = decode_packet_header (pr_init env.bytes env.length) in
      if ltb env.length 34 then (false, w) else elim ph? [
        | none ↦ (false, w)
        | some ph ↦
            if f4mp_validate_packet_header ph
            then tl_handle_packet w env.connection_id ph r
            else (false, w)
      ]
