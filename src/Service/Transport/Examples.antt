-- ===== src/Service/Transport/Examples.antt =====
-- Datagrams at a session with two players.
use f4mp.Base.{ℕ, ◌≡◌, refl, true, false, none, some, List, [], ◌∷◌, arith}
use f4mp.Wire.Reader.{
  ◌>>=◌, done, pr_init, pr_reserve, pr_read_bytes, pr_read_u8, pr_read_u16, pr_read_u32,
}
use f4mp.Wire.Codes.{reader_at}
use f4mp.Codec.Header.{decode_packet_header, decode_message_header}
use f4mp.Codec.Control.{encode_msg_pong, decode_msg_pong}
use f4mp.Codec.Control.Agree.{msg_pong-Codes}
use f4mp.Service.Slots.{find_first}
use f4mp.Service.Examples.{whole, session}
use f4mp.Service.Transport.{
  TransportLoopContext, TransportEnvelope, tl_send_single, next_sequence, packet_header,
}
use f4mp.Service.Transport.Players.{
  PlayerProfileData, ProfileFiles, tl_find_player_by_connection, is_behind,
}
use f4mp.Service.Transport.World.{World}
use f4mp.Service.Transport.Handle.{tl_handle_envelope}
use f4mp.Service.Transport.Tick.{tl_tick}
use f4mp.Service.Transport.Frames.{decode_frame, tl_send_single-decode_frame}
use f4mp.Service.Transport.Guards.{message_type, IsRefused, tl_handle_envelope-unknown}
use f4mp.Service.Transport.Outputs.{IsQueue, tl_tick-IsQueue}
use f4mp.Service.Transport.Delivery.{tl_handle_envelope-IsQueue}

-- Profiles that were saved, the last one first.
abbrev Disk : Type 0
Disk = List (List ℕ × PlayerProfileData)

abbrev files : ProfileFiles Disk
files = record { load = λ disk path. none; save = λ disk path profile. (path, profile) ∷ disk }

abbrev context : TransportLoopContext
context = record {
  transport = record {
    session_id = 7;
    last_rx_sequence = 0;
    last_tx_sequence = 0xffff_ffff;
    last_acked_sequence = 0;
    ack_bits = 0;
    connected = true;
  };
  session = session;
  outputs = [];
  has_pending_dialogue_select = false;
  pending_dialogue_player_id = 0;
  pending_dialogue_select = record { dialogue_id = 0; choice_id = 0 };
  current_tick = 100;
  player_timeout_ticks = 50;
}

abbrev world : World Disk
world = record {
  ctx = context;
  registry = [];
  next_object_id = 1000;
  next_actor_id = 500;
  whitelist = [];
  disk = [];
}

empty-IsQueue : IsQueue context.outputs
empty-IsQueue = record { few = omega arith; packets = tt }

-- A ping with time 5, sequence number 1, on a given connection.
abbrev ping_from : ℕ → TransportEnvelope
ping_from connection_id = record {
  connection_id = connection_id;
  length = 38;
  bytes =
      0x46 ∷ 0x34 ∷ 0x4d ∷ 0x50 ∷ 1 ∷ 0 ∷ 0 ∷ 0 ∷ 7 ∷ 0 ∷ 0 ∷ 0 ∷ 1 ∷ 0 ∷ 0 ∷ 0 ∷ 0 ∷ 0 ∷ 0 ∷ 0 ∷ 0
      ∷ 0 ∷ 0 ∷ 0 ∷ 1 ∷ 0 ∷ 0 ∷ 0 ∷ 3 ∷ 0 ∷ 0 ∷ 0 ∷ 4 ∷ 0 ∷ 5 ∷ 0 ∷ 0 ∷ 0 ∷ [];
}

ping_type : message_type (ping_from 99) ≡ some 3
unfolding message_type ◌>>=◌ done decode_packet_header decode_message_header pr_init pr_reserve
    pr_read_bytes pr_read_u8 pr_read_u16 pr_read_u32
ping_type = refl

stranger : tl_find_player_by_connection session 99 ≡ none
unfolding tl_find_player_by_connection is_behind find_first
stranger = refl

tl_handle_envelope-unknown_example :
    IsRefused world (tl_handle_envelope whole files world (ping_from 99))
tl_handle_envelope-unknown_example =
    tl_handle_envelope-unknown whole files world (ping_from 99) stranger
      (λ e. ground (arith, ping_type, e))

tl_handle_envelope-IsQueue_example :
    IsQueue (tl_handle_envelope whole files world (ping_from 41)).1.ctx.outputs
tl_handle_envelope-IsQueue_example =
    tl_handle_envelope-IsQueue whole files world (ping_from 41) empty-IsQueue

tl_tick-IsQueue_example : IsQueue (tl_tick context).outputs
tl_tick-IsQueue_example = tl_tick-IsQueue context empty-IsQueue

-- The sequence number wraps around.
tl_send_single-decode_frame_example :
    (bytes : List ℕ) × (tl_send_single context 41 4 0 (encode_msg_pong (record { time_ms = 5 })) ≡ (
      true,
      record (next_sequence context) {
        outputs = record { connection_id = 41; length = 38; bytes = bytes } ∷ [];
      },
    ))
    × (decode_frame decode_msg_pong (pr_init bytes 38) ≡ (
      some (
        packet_header (next_sequence context),
        record { type = 4; flags = 0; length = 4 },
        record { time_ms = 5 },
      ),
      reader_at bytes [],
    ))
tl_send_single-decode_frame_example =
    tl_send_single-decode_frame
      (msg_pong-Codes (record { time_ms = 5 }) (record { time_ms = omega arith })) context 41 4 0
      (omega arith) (omega arith) (omega arith) (omega arith) (omega arith)
