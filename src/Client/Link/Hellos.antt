-- ===== src/Client/Link/Hellos.antt =====
-- The HELLO of plugin/src/plugin_transport_client.c as a datagram, and as the service reads it.
use f4mp.Base.{
  ℕ, ◌+◌, ◌^◌, ◌≤◌, ◌<◌, ◌≡◌, refl, ap, true, false, some, List, [], ◌∷◌, ◌++◌, arith, length,
}
use f4mp.Wire.Reader.{pr_init}
use f4mp.Wire.Fields.{IsCString}
use f4mp.Codec.Control.{encode_msg_hello, decode_msg_hello}
use f4mp.Codec.Control.Agree.{msg_hello-Codes}
use f4mp.Service.Transport.{framed, f4mp_magic, f4mp_version}
use f4mp.Service.Transport.Frames.{decode_frame, framed-decode_frame}
use f4mp.Client.Scene.Driver.{next32}
use f4mp.Client.Link.{PluginTransportClient, Link, client_header}

-- The client has sent its HELLO `d` polls ago, waits for the welcome, and the HELLO fits its buffer.
pub record IsWaiting (d : ℕ) (c : PluginTransportClient) : Type 0 where
  pub connected : c.connected ≡ false
  pub pending : c.hello_pending ≡ true
  pub sent : 0 < c.hello_send_count
  pub since : c.poll_count ≡ c.last_hello_poll_count + d
  pub session_id : c.session_id < 2 ^ 32
  pub build_hash : c.hello_build_hash < 2 ^ 32
  pub guid : IsCString c.hello_player_guid
  pub name : IsCString c.hello_player_name
  pub guid_short : length c.hello_player_guid ≤ 64
  pub name_short : length c.hello_player_name ≤ 64
  pub fits : length c.hello_player_guid + length c.hello_player_name + 2 ≤ 128

-- What a HELLO says.
pub record Greeting : Type 0 where
  pub session_id : ℕ
  pub build_hash : ℕ
  pub guid : List ℕ
  pub name : List ℕ

abbrev pub greeting : PluginTransportClient → Greeting
greeting c = record {
  session_id = c.session_id;
  build_hash = c.hello_build_hash;
  guid = c.hello_player_guid;
  name = c.hello_player_name;
}

-- A datagram that the service reads as a HELLO with a sequence number: the two headers, of a reliable
-- control message, and what on_hello decodes.
abbrev pub IsHello : Greeting → ℕ → List ℕ → Type 0
IsHello g sequence bytes =
    (decode_frame (decode_msg_hello 65 65) (pr_init bytes (length bytes))).0
    ≡ some (
      record {
        magic = f4mp_magic;
        version = f4mp_version;
        flags = 0;
        session_id = g.session_id;
        sequence = sequence;
        ack = 0;
        ack_bits = 0;
        message_count = 1;
        reserved = 0 ∷ 0 ∷ 0 ∷ [];
      },
      record { type = 0x0001; flags = 3; length = 12 + length g.guid + length g.name },
      (record { build_hash = g.build_hash; capabilities = 0 }, g.guid, g.name),
    )

-- Datagrams that are HELLOs with one sequence number after the other.
abbrev pub AreHellos : Greeting → ℕ → List (List ℕ) → Type 0
AreHellos g q [] = Unit {0}
AreHellos g q (d ∷ ds) = IsHello g (next32 q) d × AreHellos g (next32 q) ds

abbrev pub sequence_after : ℕ → List (List ℕ) → ℕ
sequence_after q [] = q
sequence_after q (d ∷ ds) = sequence_after (next32 q) ds

pub AreHellos-append :
    (g : Greeting) (q : ℕ) (ds es : List (List ℕ))
    → AreHellos g q ds
    → AreHellos g (sequence_after q ds) es
    → AreHellos g q (ds ++ es)
AreHellos-append g q [] es h k = k
AreHellos-append g q (d ∷ ds) es h k = (h.0, AreHellos-append g (next32 q) ds es h.1 k)

pub sequence_after-append :
    (q : ℕ) (ds es : List (List ℕ))
    → sequence_after q (ds ++ es) ≡ sequence_after (sequence_after q ds) es
sequence_after-append q [] es = refl
sequence_after-append q (d ∷ ds) es = sequence_after-append (next32 q) ds es

pub IsHello-framed :
    (c : PluginTransportClient) (d : ℕ)
    → IsWaiting d c
    → c.sequence < 2 ^ 32
    → (bytes : List ℕ) × (framed
          (client_header c)
          (record { type = 0x0001; flags = 3; length = 0 })
          (encode_msg_hello
            (record { build_hash = c.hello_build_hash; capabilities = 0 })
            c.hello_player_guid
            c.hello_player_name)
        ≡ some bytes)
      × IsHello (greeting c) c.sequence bytes
IsHello-framed c d w q =
    let (bytes, e, read) =
      framed-decode_frame
        (msg_hello-Codes _ c.hello_player_guid c.hello_player_name 65 65
          (record { build_hash = w.build_hash; capabilities = omega arith }) w.guid w.name
          (omega (arith, w.guid_short)) (omega (arith, w.name_short)) (omega (arith, w.fits))
          (omega (arith, w.fits)))
        (client_header c) _
        (record {
          magic = omega arith;
          version = omega arith;
          flags = omega arith;
          session_id = w.session_id;
          sequence = q;
          ack = omega arith;
          ack_bits = omega arith;
          message_count = omega arith;
          reserved = refl;
        })
        (omega arith) (omega arith) (omega (arith, w.fits)) in
    (bytes, e, ap (λ r. r.0) read)

-- From `l` to `l'`, by `n` polls: `k` more HELLOs are out, the last of them just now.
pub record HasSent {Net : Type 0} (sent : Net → List (List ℕ)) (n k : ℕ) (l l' : Link Net)
    : Type 0 where
  pub waiting : IsWaiting 0 l'.client
  pub interval : l'.client.hello_retry_interval_polls ≡ l.client.hello_retry_interval_polls
  pub polls : l'.client.poll_count ≡ l.client.poll_count + n
  pub hellos : l'.client.hello_send_count ≡ l.client.hello_send_count + k
  pub greets : greeting l'.client ≡ greeting l.client
  pub datagrams : List (List ℕ)
  pub number : length datagrams ≡ k
  pub gone_out : sent l'.net ≡ sent l.net ++ datagrams
  pub read : AreHellos (greeting l.client) l.client.sequence datagrams
  pub sequence : l'.client.sequence ≡ sequence_after l.client.sequence datagrams
