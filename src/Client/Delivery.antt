-- ===== src/Client/Delivery.antt =====
-- What service/src/transport_loop.c sends, plugin/src/protocol_apply.c applies.
pub mod Updates
use f4mp.Base.{
  ℕ, ◌+◌, ◌-◌, ◌^◌, ◌≤◌, ◌<◌, ◌≡◌, refl, sym, ap, ◌∙◌, subst, Bool, true, false, Option, none, some,
  List, [], ◌∷◌, ◌++◌, ◌==◌, ltb, if◌then◌else◌, arith, length,
}
use f4mp.Wire.Writer.{W}
use f4mp.Wire.Reader.{PacketReader, R, ◌>>=◌, done, pr_init}
use f4mp.Wire.Bounds.{>>=-inversion}
use f4mp.Wire.Codes.{Codes, reader_at}
use f4mp.Messages.Header.{PacketHeader, MessageHeader}
use f4mp.Codec.Header.{decode_packet_header, decode_message_header}
use f4mp.Service.Floats.{Floats}
use f4mp.Service.Transport.{
  TransportLoopContext, tl_send_single, next_sequence, packet_header, max_packet_size, max_outputs,
}
use f4mp.Service.Transport.Handle.{f4mp_validate_packet_header, f4mp_validate_message_header}
use f4mp.Service.Transport.Frames.{decode_frame, tl_send_single-decode_frame}
use f4mp.Client.Manager.{Plugin}
use f4mp.Client.Apply.{decoding, apply_message, apply_body, plugin_apply_packet}

module _ (F : Floats) {A : Type 0} (dec : R A) (handler : A → Plugin → Bool × Plugin) where
  read_message :
      (bytes : List ℕ) (len : ℕ) (p : Plugin) (ph : PacketHeader) (mh : MessageHeader) (a : A)
      (r₁ r₂ r₃ : PacketReader)
      → decode_packet_header (pr_init bytes len) ≡ (some ph, r₁)
      → decode_message_header r₁ ≡ (some mh, r₂)
      → dec r₂ ≡ (some a, r₃)
      → 34 ≤ len
      → f4mp_validate_packet_header ph ≡ true
      → f4mp_validate_message_header mh ≡ true
      → ((r : PacketReader) (q : Plugin) → apply_message F mh.type r q ≡ decoding dec handler r q)
      → plugin_apply_packet F bytes len p ≡ handler a p
  unfolding plugin_apply_packet apply_body decoding
  read_message bytes len p ph mh a r₁ r₂ r₃ e₁ e₂ e₃ room h₁ h₂ cases = ground (arith, cases r₂ p)

  -- A frame that is read in one piece, and is valid, is applied by the case of its type.
  read_frame :
      (bytes : List ℕ) (len : ℕ) (p : Plugin) (ph : PacketHeader) (mh : MessageHeader) (a : A)
      (r' : PacketReader)
      → decode_frame dec (pr_init bytes len) ≡ (some (ph, mh, a), r')
      → 34 ≤ len
      → f4mp_validate_packet_header ph ≡ true
      → f4mp_validate_message_header mh ≡ true
      → ((r : PacketReader) (q : Plugin) → apply_message F mh.type r q ≡ decoding dec handler r q)
      → plugin_apply_packet F bytes len p ≡ handler a p
  unfolding decode_frame done
  read_frame bytes len p ph mh a r' e room h₁ h₂ cases =
      let (ph', r₁, e₁, q₁) = >>=-inversion decode_packet_header _ (pr_init bytes len) r' _ e in
      let (mh', r₂, e₂, q₂) = >>=-inversion decode_message_header _ r₁ r' _ q₁ in
      let (a', r₃, e₃, q₃) = >>=-inversion dec _ r₂ r' _ q₂ in
      let same : ◌≡◌ {A = PacketHeader × MessageHeader × A} (ph', mh', a') (ph, mh, a) = cc in
      read_message bytes len p ph mh a r₁ r₂ r₃ (e₁ ∙ ap (λ t. (some t.0, r₁)) same)
        (e₂ ∙ ap (λ t. (some t.1, r₂)) same) (e₃ ∙ ap (λ t. (some t.2, r₃)) same) room h₁ h₂ cases

  -- A message that is sent to a plugin, and what it does there.
  sent_message :
      {enc : W} {a : A} {n : ℕ} (k : Codes enc dec a n) (ctx : TransportLoopContext)
      (connection_id msg_type msg_flags : ℕ)
      → ctx.session.session_id < 2 ^ 32
      → msg_type < 2 ^ 16
      → msg_flags < 2 ^ 16
      → 0 < n
      → 34 + n ≤ max_packet_size
      → length ctx.outputs < max_outputs
      → ((r : PacketReader) (q : Plugin) → apply_message F msg_type r q ≡ decoding dec handler r q)
      → (bytes : List ℕ) × (tl_send_single ctx connection_id msg_type msg_flags enc ≡ (
        true,
        record (next_sequence ctx) {
          outputs =
              ctx.outputs
              ++ record { connection_id = connection_id; length = 34 + n; bytes = bytes } ∷ [];
        },
      ))
        × ((p : Plugin) → plugin_apply_packet F bytes (34 + n) p ≡ handler a p)
  unfolding f4mp_validate_packet_header f4mp_validate_message_header
  sent_message k ctx connection_id msg_type msg_flags sid t f some_bytes room free cases =
      let (bytes, sent, read) =
        tl_send_single-decode_frame k ctx connection_id msg_type msg_flags sid t f room free in
      (bytes, sent, λ p. read_frame bytes _ p _ _ _ _ read (omega arith) refl (ground arith) cases)
