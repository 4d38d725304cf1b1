-- ===== src/Client/Examples.antt =====
-- A plugin that knows two remote players and one actor.
mod Live
mod Starting
use f4mp.Base.{
  ℕ, ◌≡◌, ◌⊎◌, refl, true, false, Option, none, some, List, [], ◌∷◌, ◌++◌, arith, replicate,
}
use f4mp.Messages.Player.{MsgPlayerState}
use f4mp.Messages.Actor.{MsgActorState}
use f4mp.Messages.Combat.{MsgDeathEvent}
use f4mp.Codec.Player.{encode_msg_player_state}
use f4mp.Codec.Actor.{encode_msg_actor_state}
use f4mp.Service.Examples.{whole, session}
use f4mp.Service.Zero.{zero_vec, zero_rot, zero_player_state, zero_relay_stats}
use f4mp.Service.Slots.{find_first}
use f4mp.Service.Relay.Order.{accepted}
use f4mp.Service.Transport.{TransportLoopContext, tl_init, tl_send_single, next_sequence, framed}
use f4mp.Client.Table.{get}
use f4mp.Client.Records.{
  ProxyRuntime, ProxyActorSpawnSpec, ProxyPlayerRecord, ProxyActorRecord, player_keyed, actor_keyed,
  zero_proxy_player_record, zero_proxy_actor_record,
}
use f4mp.Client.Runtime.{proxy_runtime_init, proxy_runtime_get_actor, proxy_runtime_get_player}
use f4mp.Client.Runtime.Refines.{ProxyCommand, spawn_actor, despawn_actor, shown}
use f4mp.Client.Runtime.Runs.{run, replay, no_proxies, run-proxy_runtime_init}
use f4mp.Client.Events.{proxy_set_death_event}
use f4mp.Client.Events.Death.{IsQuiet, proxy_set_death_event-IsQuiet}
use f4mp.Client.Policy.{rpup_init_default}
use f4mp.Client.Scene.Driver.{fpad_reset_default_driver, next32}
use f4mp.Client.Scene.Contract.{fpasc_reset, fpalc_reset}
use f4mp.Client.Scene.Backend.{scene_reset}
use f4mp.Client.Scene.Stub.{fo4_proxy_backend_stub_reset}
use f4mp.Client.Manager.{
  Plugin, default_backend, remote_player, is_old_state, rpm_apply_remote_player_state,
}
use f4mp.Client.Manager.Order.{IsNotNewer, applied, rpm_apply_remote_player_state-order}
use f4mp.Client.Apply.{plugin_apply_packet, pa_apply_actor_state}
use f4mp.Client.Delivery.Updates.{sent_actor_state, plugin_apply_packet-tl_send_single}
use f4mp.Client.Link.{
  Udp, nothing, PluginTransportClient, Link, ptc_close, ptc_poll_once, ptc_send_hello,
}
use f4mp.Client.Link.Hellos.{HasSent}
use f4mp.Client.Link.Handshake.{intervals, ptc_poll_once-hellos}
use f4mp.Client.Link.TooLong.{poll_results, ptc_send_hello-too_long}
use f4mp.Client.Movement.{
  LocalPlayerObservedState, msb_init, zero_observed, msb_encode_player_state_packet,
  player_packet_header, player_message_header,
}
use f4mp.Client.Movement.Accepted.{built_states, accepted-built}
use f4mp.Client.Movement.Packet.{msb_encode_player_state_packet-framed}

abbrev raider : ProxyActorSpawnSpec
raider = record {
  actor_net_id = 500;
  base_form_id = 9;
  position = zero_vec;
  rotation = zero_rot;
  actor_kind = 1;
  flags = 0;
}

abbrev commands : List ProxyCommand
commands = spawn_actor raider ∷ despawn_actor 501 ∷ despawn_actor 500 ∷ []

-- An actor that is not there is not despawned.
commands_results : (replay whole commands no_proxies).0 ≡ true ∷ false ∷ true ∷ []
unfolding replay f4mp.Client.Runtime.Refines.model_step f4mp.Client.Table.Model.put
    f4mp.Client.Table.Model.clear
commands_results = refl

run-proxy_runtime_init_example :
    ((run whole commands proxy_runtime_init).0 ≡ (replay whole commands no_proxies).0)
    × (shown (run whole commands proxy_runtime_init).1 ≡ (replay whole commands no_proxies).1)
run-proxy_runtime_init_example = run-proxy_runtime_init whole commands

-- Player 2 was last seen at sequence number 7.
abbrev second : ProxyPlayerRecord
second = record zero_proxy_player_record {
  in_use = true;
  player_id = 2;
  proxy_net_id = 2;
  last_state_sequence = 7;
  last_observed_tick = 70;
}

abbrev actor : ProxyActorRecord
actor = record zero_proxy_actor_record { in_use = true; actor_net_id = 500; health_norm = 3 }

abbrev runtime : ProxyRuntime
runtime = record {
  players = second ∷ replicate 7 zero_proxy_player_record;
  actors = actor ∷ replicate 127 zero_proxy_actor_record;
  objects = f4mp.Client.Runtime.proxy_runtime_init.objects;
  profile = f4mp.Client.Records.zero_proxy_profile_state;
  combat = f4mp.Client.Records.zero_proxy_combat_state;
  dialogue = record f4mp.Client.Records.zero_proxy_dialogue_state {
    active = true;
    npc_actor_net_id = 500;
  };
  quest = f4mp.Client.Records.zero_proxy_quest_state;
}

abbrev plugin : Plugin
plugin = record {
  world = record {
    runtime = runtime;
    driver = fpad_reset_default_driver;
    contract = fpasc_reset;
    live = fpalc_reset;
    scene = scene_reset;
    stub = fo4_proxy_backend_stub_reset;
  };
  backend = default_backend;
  policy = rpup_init_default;
  local_player_id = 1;
  rejected_stale_updates = 0;
}

abbrev moved : MsgPlayerState
moved = record zero_player_state { player_id = 2; state_sequence = 8; observed_tick = 72 }

rpm_apply_remote_player_state-order_example :
    (IsNotNewer moved second
      × (rpm_apply_remote_player_state whole moved plugin
          ≡ (true, record plugin { rejected_stale_updates = next32 0 })))
    ⊎ ((¬ (IsNotNewer moved second))
        × ((rpm_apply_remote_player_state whole moved plugin).0 ≡ true)
        × (remote_player (rpm_apply_remote_player_state whole moved plugin).1 2
            ≡ some (applied whole plugin second moved)))
unfolding proxy_runtime_get_player get find_first player_keyed
rpm_apply_remote_player_state-order_example =
    rpm_apply_remote_player_state-order whole moved plugin second refl (omega arith) (omega arith)
      refl

abbrev death : MsgDeathEvent
death = record { victim_actor_net_id = 500; killer_id = 1; ragdoll_seed = 5 }

proxy_set_death_event-IsQuiet_example :
    (proxy_runtime_get_actor (proxy_set_death_event death runtime) 500
      ≡ some (record actor { is_dead = true; health_norm = 0 }))
    × IsQuiet 500 (proxy_set_death_event death runtime).dialogue
unfolding proxy_runtime_get_actor get find_first actor_keyed
proxy_set_death_event-IsQuiet_example = proxy_set_death_event-IsQuiet death runtime actor refl

abbrev seen : MsgActorState
seen = record {
  actor_net_id = 500;
  position = zero_vec;
  rotation = zero_rot;
  health_norm = 3;
  anim_state = 0;
  actor_flags = 2;
  target_net_id = 1;
}

abbrev context : TransportLoopContext
context = tl_init session

plugin_apply_packet-tl_send_single_example :
    (bytes : List ℕ) × (tl_send_single context 41 0x0202 0x100 (encode_msg_actor_state seen) ≡ (
      true,
      record (next_sequence context) {
        outputs = record { connection_id = 41; length = 74; bytes = bytes } ∷ [];
      },
    ))
    × ((p : Plugin) → plugin_apply_packet whole bytes 74 p ≡ pa_apply_actor_state whole seen p)
unfolding tl_init
plugin_apply_packet-tl_send_single_example =
    plugin_apply_packet-tl_send_single whole (sent_actor_state seen) context 41 0x100
      (record {
        actor_net_id = omega arith;
        position = record { x = omega arith; y = omega arith; z = omega arith };
        rotation = record { pitch = omega arith; yaw = omega arith; roll = omega arith };
        health_norm = omega arith;
        anim_state = omega arith;
        actor_flags = omega arith;
        target_net_id = omega arith;
      })
      (omega arith) (omega arith) (omega arith)

-- The local player is seen, not seen, seen in the same place, and elsewhere.
abbrev captures : List (Option LocalPlayerObservedState)
captures =
    some (record zero_observed { player_id = 1 })
    ∷ none
    ∷ some (record zero_observed { player_id = 1 })
    ∷ some (record zero_observed { player_id = 1; stance = 2 })
    ∷ []

accepted-built_example :
    accepted zero_relay_stats (built_states whole captures (msb_init none))
    ≡ built_states whole captures (msb_init none)
unfolding msb_init
accepted-built_example =
    accepted-built whole captures (msb_init none) zero_relay_stats (omega arith) (omega arith)
      (omega arith) (omega arith)

msb_encode_player_state_packet-framed_example :
    framed (player_packet_header 7 1) player_message_header (encode_msg_player_state moved)
    ≡ some (msb_encode_player_state_packet 1400 7 1 moved)
msb_encode_player_state_packet-framed_example =
    msb_encode_player_state_packet-framed 1400 7 1 moved (omega arith) (omega arith) (omega arith)
      (record {
        player_id = omega arith;
        reserved = omega arith;
        position = record { x = omega arith; y = omega arith; z = omega arith };
        rotation = record { pitch = omega arith; yaw = omega arith; roll = omega arith };
        velocity = record { x = omega arith; y = omega arith; z = omega arith };
        stance = omega arith;
        reserved2 = refl;
        anim_state = omega arith;
        reserved3 = omega arith;
        equipped_form_id = omega arith;
        state_sequence = omega arith;
        observed_tick = omega arith;
      })

-- A socket on which nothing arrives; it keeps what was sent, in order.
abbrev pub silence : Udp (List (List ℕ))
silence = record {
  send = λ bytes net. (true, net ++ (bytes ∷ []));
  wait = λ timeout_ms net. (nothing, net);
}

-- A HELLO of a player with a short name, just sent.
abbrev waiting : PluginTransportClient
waiting = record ptc_close {
  hello_pending = true;
  hello_player_guid = 65 ∷ 66 ∷ [];
  hello_player_name = 67 ∷ [];
  hello_send_count = 1;
  hello_retry_interval_polls = 4;
}

abbrev pub link : Link (List (List ℕ))
link = record { client = waiting; plugin = plugin; net = [] }

ptc_poll_once-hellos_example :
    ((intervals whole silence 5 3 4 link).0 ≡ true)
    × HasSent (λ net. net) 12 3 link (intervals whole silence 5 3 4 link).1
unfolding ptc_close
ptc_poll_once-hellos_example =
    ptc_poll_once-hellos whole silence (λ net. net) (λ t net. refl) (λ t net. refl)
      (λ bytes net. refl) (λ bytes net. refl) 5 3 3 link
      (record {
        connected = refl;
        pending = refl;
        sent = omega arith;
        since = refl;
        session_id = omega arith;
        build_hash = omega arith;
        guid = (omega arith, (omega arith, tt));
        name = (omega arith, tt);
        guid_short = omega arith;
        name_short = omega arith;
        fits = omega arith;
      })
      refl (omega arith) (omega arith)

abbrev unconnected : Link (List (List ℕ))
unconnected = record {
  client = record ptc_close { hello_retry_interval_polls = 4 };
  plugin = plugin;
  net = [];
}

-- 64 bytes of GUID and 63 of name.
ptc_send_hello-too_long_example :
    let (ok, l₁) = ptc_send_hello silence 1 (replicate 64 65) (replicate 63 66) unconnected in
    let (results, l₂) = poll_results silence whole 5 3 l₁ in
    (ok ≡ false) × (results ≡ none ∷ none ∷ none ∷ []) × (l₂.net ≡ [])
unfolding ptc_close
ptc_send_hello-too_long_example =
    ptc_send_hello-too_long silence whole (λ net. net) (λ t net. refl) (λ t net. refl) 5 3 1
      (replicate 64 65) (replicate 63 66) unconnected (omega arith) refl
