-- ===== src/Service/Transport/Frames.antt =====
-- The frames of tl_send_single of service/src/transport_loop.c, and their reading.
use mathlib.Core.Path.{ap₂}
use mathlib.Core.List.{append_assoc, append-nil}
use f4mp.Base.{
  ℕ, ◌+◌, ◌-◌, ◌%◌, ◌^◌, ◌≤◌, ◌<◌, ◌≡◌, refl, sym, ap, ◌∙◌, subst, true, false, some, List, [], ◌∷◌,
  ◌++◌, arith, length, drop, length-append, take-length_append, drop-length_append,
}
use f4mp.Wire.Writer.{W, ◌and_then◌, pw_init, pw_bytes_written, le_bytes}
use f4mp.Wire.Reader.{R, ◌>>=◌, done, pr_init, pr_read_u16}
use f4mp.Wire.Codes.{
  Codes, Writes, Reads, Writes-and_then, Reads-bind, done-Reads, writer_at, reader_at,
}
use f4mp.Wire.Fields.{u16-Writes, u16-Reads}
use f4mp.Messages.Header.{PacketHeader, MessageHeader, IsPacketHeader}
use f4mp.Codec.Header.{
  encode_packet_header, decode_packet_header, encode_message_header, decode_message_header,
}
use f4mp.Codec.Header.Agree.{packet_header-Codes}
use f4mp.Service.Transport.{
  TransportLoopContext, framed, overwrite, tl_send_single, tl_push_output, next_sequence,
  packet_header, max_packet_size, max_outputs,
}

-- The order in which tl_handle_envelope reads: both headers, then the message.
unfoldable pub decode_frame : {A : Type 0} → R A → R (PacketHeader × MessageHeader × A)
decode_frame dec =
    decode_packet_header >>= λ ph. decode_message_header >>= λ mh. dec >>= λ a. done (ph, mh, a)

pub overwrite_lem :
    (front old rest src : List ℕ)
    → length old ≡ length src
    → overwrite (length front) src (front ++ (old ++ rest)) ≡ front ++ (src ++ rest)
overwrite_lem front old rest src e =
    ap₂ (λ a b. a ++ (src ++ b)) (take-length_append front (old ++ rest))
      (ap (λ n. drop n (front ++ (old ++ rest))) (omega (arith, length-append front old))
        ∙ ap (drop (length (front ++ old))) (sym (append_assoc front old rest))
        ∙ drop-length_append (front ++ old) rest)

unfoldable pub header_bytes : MessageHeader → List ℕ
header_bytes mh = le_bytes 2 mh.type ++ (le_bytes 2 mh.flags ++ le_bytes 2 mh.length)

pub header_bytes-length : (mh : MessageHeader) → length (header_bytes mh) ≡ 6
unfolding header_bytes
header_bytes-length mh = refl

pub header-Writes : (mh : MessageHeader) → Writes (encode_message_header mh) (header_bytes mh)
unfolding encode_message_header header_bytes
header-Writes mh =
    Writes-and_then _ _ _ _ (u16-Writes mh.type)
      (Writes-and_then _ _ _ _ (u16-Writes mh.flags) (u16-Writes mh.length))

header-Reads :
    (mh : MessageHeader)
    → mh.type < 2 ^ 16
    → mh.flags < 2 ^ 16
    → mh.length < 2 ^ 16
    → Reads decode_message_header (header_bytes mh) mh
unfolding decode_message_header header_bytes
header-Reads mh t f l = Reads-bind pr_read_u16 _ _ _ mh.type mh (u16-Reads mh.type t) (
    Reads-bind pr_read_u16 _ _ _ mh.flags mh (u16-Reads mh.flags f)
      (Reads-bind pr_read_u16 _ _ _ mh.length mh (u16-Reads mh.length l) (done-Reads mh)))

-- The bytes of a frame: the packet header's, the message header's with the length, and the message's.
unfoldable pub frame_bytes : List ℕ → MessageHeader → List ℕ → List ℕ
frame_bytes head mh payload = head ++ (header_bytes mh ++ payload)

-- The header that is written first, and the one that stands there in the end.
abbrev pub sized : MessageHeader → ℕ → MessageHeader
sized mh n = record mh { length = n }

patched :
    (head payload : List ℕ) (mh : MessageHeader) (n : ℕ)
    → length head ≡ 28
    → overwrite 32 (le_bytes 2 n) ((head ++ header_bytes mh) ++ payload)
      ≡ frame_bytes head (sized mh n) payload
unfolding header_bytes frame_bytes
patched head payload mh n e =
    let tags = le_bytes 2 mh.type ++ le_bytes 2 mh.flags in
    let at : 32 ≡ length (head ++ tags) = omega (arith, length-append head tags) in
    ap₂ (λ i b. overwrite i (le_bytes 2 n) b) at
      (ap (λ t. t ++ payload) (sym (append_assoc head tags (le_bytes 2 mh.length)))
        ∙ append_assoc (head ++ tags) (le_bytes 2 mh.length) payload)
    ∙ overwrite_lem (head ++ tags) (le_bytes 2 mh.length) payload (le_bytes 2 n) refl
    ∙ append_assoc head tags (le_bytes 2 n ++ payload)

sent_header :
    (ctx : TransportLoopContext)
    → ctx.session.session_id < 2 ^ 32
    → IsPacketHeader (packet_header (next_sequence ctx))
sent_header ctx sid = record {
  magic = omega arith;
  version = omega arith;
  flags = omega arith;
  session_id = sid;
  sequence = omega arith;
  ack = omega arith;
  ack_bits = omega arith;
  message_count = omega arith;
  reserved = refl;
}

queued :
    (ctx : TransportLoopContext) (connection_id m : ℕ) (bytes : List ℕ)
    → length bytes ≡ m
    → 0 < m
    → m ≤ max_packet_size
    → length ctx.outputs < max_outputs
    → tl_push_output ctx connection_id bytes ≡ (
      true,
      record ctx {
        outputs =
            ctx.outputs ++ record { connection_id = connection_id; length = m; bytes = bytes } ∷ [];
      },
    )
unfolding tl_push_output
queued ctx connection_id m bytes size some_bytes room free = ground arith

sent_bytes :
    (ctx : TransportLoopContext) (connection_id msg_type msg_flags : ℕ) (enc : W) (bytes : List ℕ)
    → framed
        (packet_header (next_sequence ctx))
        (record { type = msg_type; flags = msg_flags; length = 0 })
        enc
      ≡ some bytes
    → tl_send_single ctx connection_id msg_type msg_flags enc
      ≡ tl_push_output (next_sequence ctx) connection_id bytes
unfolding tl_send_single
sent_bytes ctx connection_id msg_type msg_flags enc bytes e = rw (tl_send_single, e) refl

module _ {A : Type 0} {enc : W} {dec : R A} {a : A} {n : ℕ} (k : Codes enc dec a n) where
  pub framed_lem :
      (ph : PacketHeader) (mh : MessageHeader)
      (h : Codes (encode_packet_header ph) decode_packet_header ph 28)
      → 34 + n ≤ max_packet_size
      → framed ph mh enc ≡ some (frame_bytes h.bytes (sized mh n) k.bytes)
  unfolding framed pw_init pw_bytes_written
  framed_lem ph mh h room =
      let front = h.bytes ++ header_bytes mh in
      let six = header_bytes-length mh in
      let sizes = length-append h.bytes (header_bytes mh) in
      let both = length-append front k.bytes in
      let hs = h.sized in
      let ks = k.sized in
      let start : (encode_packet_header ph and_then encode_message_header mh)
            (writer_at [] max_packet_size)
          ≡ (true, writer_at front max_packet_size) =
        (Writes-and_then _ _ _ _ h.writes (header-Writes mh)).fits [] max_packet_size
          (omega arith) in
      let next : enc (writer_at front max_packet_size)
          ≡ (true, writer_at (front ++ k.bytes) max_packet_size) =
        k.writes.fits front max_packet_size (omega arith) in
      let len : (length (front ++ k.bytes) - length front) % 2 ^ 16 ≡ n = omega arith in
      rw (start, next)
        (ap (λ m. some (overwrite 32 (le_bytes 2 m) (front ++ k.bytes))) len
          ∙ ap some (patched h.bytes k.bytes mh n hs))

  -- A message that fits a packet is framed.
  frame-Reads :
      (ph : PacketHeader) (mh : MessageHeader)
      (h : Codes (encode_packet_header ph) decode_packet_header ph 28)
      → mh.type < 2 ^ 16
      → mh.flags < 2 ^ 16
      → mh.length < 2 ^ 16
      → Reads (decode_frame dec) (frame_bytes h.bytes mh k.bytes) (ph, mh, a)
  unfolding decode_frame frame_bytes
  frame-Reads ph mh h t f l =
      subst (λ t. Reads (decode_frame dec) (h.bytes ++ (header_bytes mh ++ t)) (ph, mh, a))
        (append-nil k.bytes)
        (Reads-bind decode_packet_header _ _ _ ph (ph, mh, a) h.reads
          (Reads-bind decode_message_header _ _ _ mh (ph, mh, a) (header-Reads mh t f l)
            (Reads-bind dec _ _ _ a (ph, mh, a) k.reads (done-Reads (ph, mh, a)))))

  frame_bytes-length :
      (ph : PacketHeader) (mh : MessageHeader)
      (h : Codes (encode_packet_header ph) decode_packet_header ph 28)
      → length (frame_bytes h.bytes mh k.bytes) ≡ 34 + n
  unfolding frame_bytes
  frame_bytes-length ph mh h = omega (
    arith,
    length-append h.bytes (header_bytes mh ++ k.bytes),
    length-append (header_bytes mh) k.bytes,
    header_bytes-length mh,
    h.sized,
    k.sized,
  )

  -- A frame is read again as the headers, with the length `n`, and the message.
  pub framed-decode_frame :
      (ph : PacketHeader) (mh : MessageHeader)
      → IsPacketHeader ph
      → mh.type < 2 ^ 16
      → mh.flags < 2 ^ 16
      → 34 + n ≤ max_packet_size
      → (bytes : List ℕ) × (framed ph mh enc ≡ some bytes)
        × (decode_frame dec (pr_init bytes (length bytes))
            ≡ (some (ph, sized mh n, a), reader_at bytes []))
  unfolding pr_init
  framed-decode_frame ph mh is t f room =
      let h = packet_header-Codes ph is in
      let bytes = frame_bytes h.bytes (sized mh n) k.bytes in
      (
        bytes,
        framed_lem ph mh h room,
        ap
              (λ b.
                decode_frame dec
                  (record { buffer = b; length = length b; offset = 0; overflowed = false }))
              (sym (append-nil bytes))
            ∙ (frame-Reads ph (sized mh n) h t f (omega arith)).takes [] [],
      )

  -- Where the encoder and the decoder of a message agree on `n` bytes, there is room for them in a
  -- packet, and an output is free, the message is queued behind the others as a packet of 34 + n bytes
  -- with the next sequence number. Reading the packet in the order of tl_handle_envelope gives the two
  -- headers, with the type, the flags and the length `n`, and the message, and nothing is left over.
  pub tl_send_single-decode_frame :
      (ctx : TransportLoopContext) (connection_id msg_type msg_flags : ℕ)
      → ctx.session.session_id < 2 ^ 32
      → msg_type < 2 ^ 16
      → msg_flags < 2 ^ 16
      → 34 + n ≤ max_packet_size
      → length ctx.outputs < max_outputs
      → (bytes : List ℕ) × (tl_send_single ctx connection_id msg_type msg_flags enc ≡ (
        true,
        record (next_sequence ctx) {
          outputs =
              ctx.outputs
              ++ record { connection_id = connection_id; length = 34 + n; bytes = bytes } ∷ [];
        },
      ))
        × (decode_frame dec (pr_init bytes (34 + n)) ≡ (
          some (
            packet_header (next_sequence ctx),
            record { type = msg_type; flags = msg_flags; length = n },
            a,
          ),
          reader_at bytes [],
        ))
  unfolding pr_init
  tl_send_single-decode_frame ctx connection_id msg_type msg_flags sid t f room free =
      let ph = packet_header (next_sequence ctx) in
      let mh : MessageHeader = record { type = msg_type; flags = msg_flags; length = 0 } in
      let h = packet_header-Codes ph (sent_header ctx sid) in
      let bytes = frame_bytes h.bytes (sized mh n) k.bytes in
      let size : length bytes ≡ 34 + n = frame_bytes-length ph (sized mh n) h in
      (
        bytes,
        sent_bytes ctx connection_id msg_type msg_flags enc bytes (framed_lem ph mh h room)
            ∙ (queued (next_sequence ctx) connection_id (34 + n) bytes size (omega arith) room
                free),
        subst
            (λ m.
              decode_frame dec
                (record { buffer = bytes; length = m; offset = 0; overflowed = false })
              ≡ (some (ph, sized mh n, a), reader_at bytes []))
            size
            (ap
                (λ b.
                  decode_frame dec
                    (record { buffer = b; length = length b; offset = 0; overflowed = false }))
                (sym (append-nil bytes))
              ∙ (frame-Reads ph (sized mh n) h t f (omega arith)).takes [] []),
      )
