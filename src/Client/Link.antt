-- ===== src/Client/Link.antt =====
-- plugin/src/plugin_transport_client.c: the plugin's end of the connection. The UDP socket is a
-- parameter; whether it could be opened, and the address be read, are arguments of ptc_open. A char
-- array is its C string.
pub mod Hellos
pub mod Handshake
pub mod TooLong
use f4mp.Base.{
  ℕ, ◌+◌, ◌-◌, ◌%◌, ◌^◌, Bool, true, false, not, ◌&&◌, ◌||◌, Option, none, some, List, [], ◌∷◌,
  ◌==◌, ltb, if◌then◌else◌, length, take,
}
use f4mp.Wire.Writer.{W}
use f4mp.Wire.Reader.{PacketReader, pr_init}
use f4mp.Messages.Header.{PacketHeader, MessageHeader}
use f4mp.Messages.Control.{MsgWelcome, MsgPong}
use f4mp.Messages.Player.{MsgPlayerState}
use f4mp.Codec.Header.{decode_packet_header, decode_message_header}
use f4mp.Codec.Control.{
  encode_msg_hello, encode_msg_ping, encode_msg_disconnect, decode_msg_welcome, decode_msg_pong,
}
use f4mp.Codec.Player.{encode_msg_player_state}
use f4mp.Service.Floats.{Floats}
use f4mp.Service.Transport.{framed, f4mp_magic, f4mp_version}
use f4mp.Service.Transport.Handle.{f4mp_validate_packet_header, f4mp_validate_message_header}
use f4mp.Client.Scene.Driver.{next32}
use f4mp.Client.Manager.{Plugin}
use f4mp.Client.Apply.{plugin_apply_packet}

-- What select and recvfrom come back with.
pub data Arrival : Type 0 where
  nothing : Arrival
  failed : Arrival
  datagram : List ℕ → Arrival

-- A UDP socket with its endpoint: sendto, and select with recvfrom for some milliseconds.
pub record Udp (Net : Type 0) : Type 0 where
  pub send : List ℕ → Net → Bool × Net
  pub wait : ℕ → Net → Arrival × Net

-- All but the socket and the endpoint.
pub record PluginTransportClient : Type 0 where
  pub connected : Bool
  pub session_id : ℕ
  pub local_player_id : ℕ
  pub sequence : ℕ
  pub tick_rate : ℕ
  pub heartbeats_sent : ℕ
  pub heartbeats_received : ℕ
  pub last_pong_time_ms : ℕ
  pub hello_pending : Bool
  pub hello_build_hash : ℕ
  pub hello_player_guid : List ℕ
  pub hello_player_name : List ℕ
  pub hello_send_count : ℕ
  pub hello_retry_count : ℕ
  pub pre_welcome_packet_count : ℕ
  pub ignored_pre_welcome_packet_count : ℕ
  pub poll_count : ℕ
  pub last_hello_poll_count : ℕ
  pub hello_retry_interval_polls : ℕ

-- The client with the socket and what its packets are applied to.
pub record Link (Net : Type 0) : Type 0 where
  pub client : PluginTransportClient
  pub plugin : Plugin
  pub net : Net

unfoldable pub ptc_close : PluginTransportClient
ptc_close = record {
  connected = false;
  session_id = 0;
  local_player_id = 0;
  sequence = 0;
  tick_rate = 0;
  heartbeats_sent = 0;
  heartbeats_received = 0;
  last_pong_time_ms = 0;
  hello_pending = false;
  hello_build_hash = 0;
  hello_player_guid = [];
  hello_player_name = [];
  hello_send_count = 0;
  hello_retry_count = 0;
  pre_welcome_packet_count = 0;
  ignored_pre_welcome_packet_count = 0;
  poll_count = 0;
  last_hello_poll_count = 0;
  hello_retry_interval_polls = 0;
}

unfoldable pub ptc_open : ℕ → Bool → Bool → PluginTransportClient → Bool × PluginTransportClient
ptc_open port opened parsed c =
    if port == 0
    then (false, c)
    else (opened && parsed, record ptc_close { hello_retry_interval_polls = 4 })

abbrev pub client_header : PluginTransportClient → PacketHeader
client_header c = record {
  magic = f4mp_magic;
  version = f4mp_version;
  flags = 0;
  session_id = c.session_id;
  sequence = c.sequence;
  ack = 0;
  ack_bits = 0;
  message_count = 1;
  reserved = 0 ∷ 0 ∷ 0 ∷ [];
}

-- The counters of ptc_send_cached_hello.
abbrev pub counted : Bool → PluginTransportClient → PluginTransportClient
counted is_retry c = record c {
  hello_send_count = next32 c.hello_send_count;
  hello_retry_count = if is_retry then next32 c.hello_retry_count else c.hello_retry_count;
  last_hello_poll_count = c.poll_count;
}

abbrev pub on_client :
    {Net : Type 0} → (PluginTransportClient → PluginTransportClient) → Link Net → Link Net
on_client f l = record l { client = f l.client }

module _ {Net : Type 0} (udp : Udp Net) where
  -- The packet is framed as tl_send_single frames its own.
  unfoldable pub ptc_send_one : ℕ → ℕ → W → Link Net → Bool × Link Net
  ptc_send_one type flags enc l =
      let l' = on_client (λ c. record c { sequence = next32 c.sequence }) l in
      elim (framed (client_header l'.client) (record { type = type; flags = flags; length = 0 })
        enc) [
          | none ↦ (false, l')
          | some bytes ↦ let (ok, net) = udp.send bytes l'.net in (ok, record l' { net = net })
        ]

  unfoldable pub ptc_send_cached_hello : Bool → Link Net → Bool × Link Net
  ptc_send_cached_hello is_retry l =
      if not hello_pending
      then (false, l)
      else if ltb 128 (length hello_player_guid + 1 + length hello_player_name + 1)
      then (false, l)
      else (let (ok, l') =
            ptc_send_one 0x0001 3
              (encode_msg_hello (record { build_hash = hello_build_hash; capabilities = 0 })
                hello_player_guid hello_player_name)
              l in
          if ok then (true, on_client (counted is_retry) l') else (false, l'))
    where
      open l use {client}
      open client use {hello_pending, hello_build_hash, hello_player_guid, hello_player_name}

  -- `c->poll_count - c->last_hello_poll_count`, on 32 bits.
  abbrev pub polls_since : PluginTransportClient → ℕ
  polls_since c = (c.poll_count + (2 ^ 32 - c.last_hello_poll_count)) % 2 ^ 32

  unfoldable pub ptc_maybe_retry_hello : Link Net → Bool × Link Net
  ptc_maybe_retry_hello l =
      if client.connected || not client.hello_pending
      then (true, l)
      else if client.hello_send_count == 0
      then ptc_send_cached_hello false l
      else if ltb (polls_since client) client.hello_retry_interval_polls
      then (true, l)
      else ptc_send_cached_hello true l
    where
      open l use {client}

  unfoldable pub ptc_send_hello : ℕ → List ℕ → List ℕ → Link Net → Bool × Link Net
  ptc_send_hello build_hash player_guid player_name l = ptc_send_cached_hello false (
      on_client
        (λ c. record c {
          hello_build_hash = build_hash;
          hello_player_guid = take 64 player_guid;
          hello_player_name = take 64 player_name;
          hello_pending = true;
          connected = false;
          local_player_id = 0;
        })
        l)

  unfoldable pub ptc_send_player_state : MsgPlayerState → Link Net → Bool × Link Net
  ptc_send_player_state msg l = ptc_send_one 0x0102 0x100 (encode_msg_player_state msg) l

  unfoldable pub ptc_send_ping : ℕ → Link Net → Bool × Link Net
  ptc_send_ping time_ms l =
      let (ok, l') = ptc_send_one 0x0003 0 (encode_msg_ping (record { time_ms = time_ms })) l in
      if ok
      then (true, on_client (λ c. record c { heartbeats_sent = next32 c.heartbeats_sent }) l')
      else (false, l')

  unfoldable pub ptc_send_disconnect : ℕ → Link Net → Bool × Link Net
  ptc_send_disconnect reason l =
      ptc_send_one 0x0005 3 (encode_msg_disconnect (record { reason = reason })) l

  -- `if (!ptc_maybe_retry_hello(c)) return false; *out_applied_any = applied; return true;`, where `none`
  -- is false.
  unfoldable pub retry_then : Bool → Link Net → Option Bool × Link Net
  retry_then applied l =
      let (ok, l') = ptc_maybe_retry_hello l in if ok then (some applied, l') else (none, l')

  unfoldable pub on_welcome : PacketReader → Link Net → Option Bool × Link Net
  on_welcome r l = elim (decode_msg_welcome r).0 [
    | none ↦ (none, l)
    | some w ↦ retry_then false (
        on_client
          (λ c. record c {
            connected = true;
            hello_pending = false;
            local_player_id = w.player_id;
            tick_rate = w.tick_rate;
          })
          l)
  ]

  unfoldable pub on_pong : PacketReader → Link Net → Option Bool × Link Net
  on_pong r l = elim (decode_msg_pong r).0 [
    | none ↦ (none, l)
    | some p ↦ retry_then false (
        on_client
          (λ c. record c {
            heartbeats_received = next32 c.heartbeats_received;
            last_pong_time_ms = p.time_ms;
          })
          l)
  ]

  module _ (F : Floats) where
    -- Any other type: what is not understood is ignored before the welcome, and an error after it.
    unfoldable pub on_other : List ℕ → Link Net → Option Bool × Link Net
    on_other bytes l =
        let (ok, plugin) = plugin_apply_packet F bytes (length bytes) l.plugin in
        if l.client.connected
        then if ok
          then retry_then true (record l { plugin = plugin })
          else (none, record l { plugin = plugin })
        else if ok
        then retry_then true (
            on_client
              (λ c. record c { pre_welcome_packet_count = next32 c.pre_welcome_packet_count })
              (record l { plugin = plugin }))
        else retry_then false (
            on_client
              (λ c. record c {
                pre_welcome_packet_count = next32 c.pre_welcome_packet_count;
                ignored_pre_welcome_packet_count = next32 c.ignored_pre_welcome_packet_count;
              })
              (record l { plugin = plugin }))

    -- The switch over the type.
    unfoldable pub receive :
        List ℕ → PacketHeader → MessageHeader → PacketReader → Link Net → Option Bool × Link Net
    receive bytes ph mh r l =
        let l' = on_client (λ c. record c { session_id = ph.session_id }) l in
        if mh.type == 0x0002
        then on_welcome r l'
        else if mh.type == 0x0004
        then on_pong r l'
        else on_other bytes l'

    -- The second header, once the first is read and valid.
    unfoldable pub receive_message :
        List ℕ → PacketHeader → PacketReader → Link Net → Option Bool × Link Net
    receive_message bytes ph r l =
        let (mh?, r') = decode_message_header r in
        elim mh? [
          | none ↦ (none, l)
          | some mh ↦
              if f4mp_validate_message_header mh then receive bytes ph mh r' l else (none, l)
        ]

    unfoldable pub receive_packet : List ℕ → Link Net → Option Bool × Link Net
    receive_packet bytes l =
        let (ph?, r) = decode_packet_header (pr_init bytes (length bytes)) in
        elim ph? [
          | none ↦ (none, l)
          | some ph ↦
              if f4mp_validate_packet_header ph then receive_message bytes ph r l else (none, l)
        ]

    unfoldable pub ptc_poll_once : ℕ → Link Net → Option Bool × Link Net
    ptc_poll_once timeout_ms l =
        let (arrival, net) = udp.wait timeout_ms l.net in
        let l' =
          on_client (λ c. record c { poll_count = next32 c.poll_count }) (record l { net = net }) in
        elim arrival [
          | nothing ↦ retry_then false l'
          | failed ↦ (none, l')
          | datagram bytes ↦ receive_packet bytes l'
        ]

pub record PluginTransportHandshakeStats : Type 0 where
  pub hello_pending : Bool
  pub welcome_received : Bool
  pub poll_count : ℕ
  pub hello_send_count : ℕ
  pub hello_retry_count : ℕ
  pub pre_welcome_packet_count : ℕ
  pub ignored_pre_welcome_packet_count : ℕ

unfoldable pub ptc_get_handshake_stats : PluginTransportClient → PluginTransportHandshakeStats
ptc_get_handshake_stats c = record {
  hello_pending = c.hello_pending;
  welcome_received = c.connected;
  poll_count = c.poll_count;
  hello_send_count = c.hello_send_count;
  hello_retry_count = c.hello_retry_count;
  pre_welcome_packet_count = c.pre_welcome_packet_count;
  ignored_pre_welcome_packet_count = c.ignored_pre_welcome_packet_count;
}
