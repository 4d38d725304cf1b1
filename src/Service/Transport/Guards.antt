-- ===== src/Service/Transport/Guards.antt =====
-- Whom tl_handle_envelope of service/src/transport_loop.c listens to.
use f4mp.Base.{
  ℕ, ◌≡◌, ◌≢◌, refl, ap, ◌∙◌, Bool, false, Option, none, some, ltb, arith, Bool-cases, Option-cases,
  inl, inr,
}
use f4mp.Wire.Reader.{PacketReader, ◌>>=◌, done, pr_init}
use f4mp.Messages.Header.{PacketHeader, MessageHeader}
use f4mp.Codec.Header.{decode_packet_header, decode_message_header}
use f4mp.Service.Floats.{Floats}
use f4mp.Service.Transport.{TransportEnvelope}
use f4mp.Service.Transport.Players.{ProfileFiles, tl_find_player_by_connection}
use f4mp.Service.Transport.World.{World, received}
use f4mp.Service.Transport.Handle.{
  tl_handle_envelope, tl_handle_packet, tl_handle_message, f4mp_validate_packet_header,
  f4mp_validate_message_header,
}

-- The type of the first message of a datagram, where both headers can be read.
unfoldable pub message_type : TransportEnvelope → Option ℕ
message_type env =
    ((decode_packet_header >>= λ ph. decode_message_header >>= λ mh. done mh.type)
      (pr_init env.bytes env.length)).0

message_type_lem :
    (env : TransportEnvelope) (ph : PacketHeader) (mh : MessageHeader)
    → (decode_packet_header (pr_init env.bytes env.length)).0 ≡ some ph
    → (decode_message_header (decode_packet_header (pr_init env.bytes env.length)).1).0 ≡ some mh
    → message_type env ≡ some mh.type
unfolding message_type ◌>>=◌ done
message_type_lem env ph mh p q = rw (message_type, ◌>>=◌, p, q) refl

-- The handler returns false, and no more is changed than the last sequence number received.
abbrev pub IsRefused : {Disk : Type 0} → World Disk → Bool × World Disk → Type 0
IsRefused w result = (result.0 ≡ false) × ((sequence : ℕ) × (result.1 ≡ received w sequence))

module _ (F : Floats) {Disk : Type 0} (files : ProfileFiles Disk) where
  message_refused :
      (w : World Disk) (connection_id : ℕ) (mh : MessageHeader) (r : PacketReader)
      → tl_find_player_by_connection w.ctx.session connection_id ≡ none
      → mh.type ≢ 1
      → tl_handle_message F files w connection_id mh r ≡ (false, w)
  unfolding tl_handle_message
  message_refused w connection_id mh r unknown other = ground (arith, λ (t : mh.type ≡ 1). other t)

  packet_refused :
      (w : World Disk) (connection_id : ℕ) (ph : PacketHeader) (r : PacketReader)
      → tl_find_player_by_connection w.ctx.session connection_id ≡ none
      → ((mh : MessageHeader) → (decode_message_header r).0 ≡ some mh → mh.type ≢ 1)
      → tl_handle_packet F files w connection_id ph r ≡ (false, received w ph.sequence)
  unfolding tl_handle_packet
  packet_refused w connection_id ph r unknown other =
      elim (Option-cases (decode_message_header r).0) [
        | inl p ↦ rw (p, tl_handle_packet) refl
        | inr (mh, p) ↦
            rw (p, tl_handle_packet)
              (elim (Bool-cases (f4mp_validate_message_header mh)) [
                | inl v ↦ rw v (
                    message_refused (received w ph.sequence) connection_id mh _ unknown
                      (other mh p))
                | inr v ↦ rw v refl
              ])
      ]

  -- A datagram that is not a hello, from a connection that no connected player is behind, is refused: at
  -- most the last sequence number received changes.
  pub tl_handle_envelope-unknown :
      (w : World Disk) (env : TransportEnvelope)
      → tl_find_player_by_connection w.ctx.session env.connection_id ≡ none
      → message_type env ≢ some 1
      → IsRefused w (tl_handle_envelope F files w env)
  unfolding tl_handle_envelope
  tl_handle_envelope-unknown w env unknown other =
      elim (Option-cases (decode_packet_header (pr_init env.bytes env.length)).0) [
        | inl p ↦ (ground arith, (w.ctx.transport.last_rx_sequence, ground arith))
        | inr (ph, p) ↦ elim (Bool-cases (ltb env.length 34)) [
          | inl s ↦ rw s (refl, (w.ctx.transport.last_rx_sequence, refl))
          | inr s ↦
              rw (s, p)
                (elim (Bool-cases (f4mp_validate_packet_header ph)) [
                  | inl v ↦
                      let e =
                        packet_refused w env.connection_id ph
                          (decode_packet_header (pr_init env.bytes env.length)).1 unknown
                          (λ mh q t. other (message_type_lem env ph mh p q ∙ ap some t)) in
                      rw (v, e) (refl, (ph.sequence, refl))
                  | inr v ↦ rw v (refl, (w.ctx.transport.last_rx_sequence, refl))
                ])
        ]
      ]
