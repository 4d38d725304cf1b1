-- ===== src/Service/Transport.antt =====
-- service/src/transport_loop.c and transport_loop.h: the context of the loop, and how one message is
-- framed and queued. `outputs` holds the first `output_count` entries of the array. The session is
-- reached through the context alone.
pub mod Send
pub mod Players
pub mod World
pub mod Requests
pub mod Hello
pub mod Handle
pub mod Tick
pub mod Frames
pub mod Guards
pub mod Outputs
pub mod Delivery
mod Examples
use f4mp.Base.{
  ℕ, ◌+◌, ◌-◌, ◌%◌, ◌^◌, Bool, true, false, not, ◌&&◌, ◌||◌, Option, none, some, List, [], ◌∷◌,
  ◌++◌, ◌==◌, ltb, leb, if◌then◌else◌, length, take, drop,
}
use f4mp.Wire.Writer.{PacketWriter, W, ◌and_then◌, pw_init, le_bytes, pw_bytes_written}
use f4mp.Messages.Header.{PacketHeader, MessageHeader}
use f4mp.Messages.Ui.{MsgDialogueSelect}
use f4mp.Codec.Header.{encode_packet_header, encode_message_header}
use f4mp.Service.State.{SessionState}

pub record TransportSessionState : Type 0 where
  pub session_id : ℕ
  pub last_rx_sequence : ℕ
  pub last_tx_sequence : ℕ
  pub last_acked_sequence : ℕ
  pub ack_bits : ℕ
  pub connected : Bool

pub record TransportEnvelope : Type 0 where
  pub connection_id : ℕ
  pub length : ℕ
  pub bytes : List ℕ

pub record TransportOutput : Type 0 where
  pub connection_id : ℕ
  pub length : ℕ
  pub bytes : List ℕ

pub record TransportLoopContext : Type 0 where
  pub transport : TransportSessionState
  pub session : SessionState
  pub outputs : List TransportOutput
  pub has_pending_dialogue_select : Bool
  pub pending_dialogue_player_id : ℕ
  pub pending_dialogue_select : MsgDialogueSelect
  pub current_tick : ℕ
  pub player_timeout_ticks : ℕ

abbrev pub no_select : MsgDialogueSelect
no_select = record { dialogue_id = 0; choice_id = 0 }

abbrev pub max_packet_size : ℕ
max_packet_size = 1400

abbrev pub max_outputs : ℕ
max_outputs = 64

abbrev pub f4mp_magic : ℕ
f4mp_magic = 0x504d_3446

abbrev pub f4mp_version : ℕ
f4mp_version = 1

unfoldable pub tl_init : SessionState → TransportLoopContext
tl_init session = record {
  transport = record {
    session_id = session.session_id;
    last_rx_sequence = 0;
    last_tx_sequence = 0;
    last_acked_sequence = 0;
    ack_bits = 0;
    connected = true;
  };
  session = session;
  outputs = [];
  has_pending_dialogue_select = false;
  pending_dialogue_player_id = 0;
  pending_dialogue_select = no_select;
  current_tick = 0;
  player_timeout_ticks = 0;
}

unfoldable pub tl_set_player_timeout_ticks : TransportLoopContext → ℕ → TransportLoopContext
tl_set_player_timeout_ticks ctx timeout_ticks = record ctx { player_timeout_ticks = timeout_ticks }

unfoldable pub tl_try_pop_dialogue_select :
    TransportLoopContext → Option (ℕ × MsgDialogueSelect) × TransportLoopContext
tl_try_pop_dialogue_select ctx =
    if ctx.has_pending_dialogue_select
    then (
      some (ctx.pending_dialogue_player_id, ctx.pending_dialogue_select),
      record ctx {
        has_pending_dialogue_select = false;
        pending_dialogue_select = no_select;
        pending_dialogue_player_id = 0;
      },
    )
    else (none, ctx)

unfoldable pub tl_clear_outputs : TransportLoopContext → TransportLoopContext
tl_clear_outputs ctx = record ctx { outputs = [] }

unfoldable pub tl_push_output : TransportLoopContext → ℕ → List ℕ → Bool × TransportLoopContext
tl_push_output ctx connection_id bytes =
    if length bytes == 0 || ltb max_packet_size (length bytes)
    then (false, ctx)
    else if leb max_outputs (length ctx.outputs)
    then (false, ctx)
    else (
      true,
      record ctx {
        outputs =
            ctx.outputs
            ++ record { connection_id = connection_id; length = length bytes; bytes = bytes } ∷ [];
      },
    )

-- `memcpy(buffer + at, src, n)`
abbrev pub overwrite : ℕ → List ℕ → List ℕ → List ℕ
overwrite at src buffer = take at buffer ++ (src ++ drop (at + length src) buffer)

-- The buffer of tl_send_single: two headers, the message, and its length put into the second header, at
-- `sizeof(PacketHeader) + offsetof(MessageHeader, length)`.
unfoldable pub framed : PacketHeader → MessageHeader → W → Option (List ℕ)
framed ph mh enc =
    let (ok, w) =
      (encode_packet_header ph and_then encode_message_header mh) (pw_init max_packet_size) in
    let (sent, w') = enc w in
    if ok && sent
    then some
        (overwrite 32 (le_bytes 2 ((pw_bytes_written w' - pw_bytes_written w) % 2 ^ 16)) w'.buffer)
    else none

abbrev pub next_sequence : TransportLoopContext → TransportLoopContext
next_sequence ctx = record ctx {
  transport = record (ctx.transport) {
    last_tx_sequence = (ctx.transport.last_tx_sequence + 1) % 2 ^ 32;
  };
}

abbrev pub packet_header : TransportLoopContext → PacketHeader
packet_header ctx = record {
  magic = f4mp_magic;
  version = f4mp_version;
  flags = 0;
  session_id = ctx.session.session_id;
  sequence = ctx.transport.last_tx_sequence;
  ack = 0;
  ack_bits = 0;
  message_count = 1;
  reserved = 0 ∷ 0 ∷ 0 ∷ [];
}

-- `enc` is the encoder with its message.
unfoldable pub tl_send_single : TransportLoopContext → ℕ → ℕ → ℕ → W → Bool × TransportLoopContext
tl_send_single ctx connection_id msg_type msg_flags enc =
    let ctx' = next_sequence ctx in
    elim (framed (packet_header ctx') (record { type = msg_type; flags = msg_flags; length = 0 })
      enc) [ none ↦ (false, ctx') | some bytes ↦ tl_push_output ctx' connection_id bytes ]
