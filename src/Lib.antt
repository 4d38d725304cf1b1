-- ===== src/Lib.antt =====
-- A model of the F4MP multiplayer service: the wire protocol (shared/protocol), the
-- host-authoritative service (service/src) and the client side of the plugin (plugin/src), with
-- proofs about them.
--
-- A client sends datagrams of at most 1400 bytes: a packet header, a message header and one message.
-- The service decodes the message, finds the player by its connection, asks a policy or the authority
-- whether it is allowed, changes the session, and queues what the players are told. A plugin says HELLO until it is welcomed,
-- sends what it observes of its own player, and applies what it is told to its tables of remote players,
-- actors and objects.
--
-- Files:
--   Base        names and lemmas that all files share
--   Wire        shared/protocol/packet_reader.c and packet_writer.c: pr_* and pw_* (Reader, Writer),
--               what it means that an encoder and a decoder agree (Codes), the fields (Fields), and
--               what a read keeps to on any input (Bounds)
--   Messages    the structs of shared/protocol/messages_*.h and packet_header.h
--   Codec       shared/protocol/packet_codec.c: encode_* and decode_*, a file for each header, with
--               the lemmas on the two in its child Agree
--   Service     service/src: State and Zero are service_state_models.h; Slots has the loops over the
--               slot arrays; Store is service_indices.c, world_state_store.c and
--               world_trace_provider.c; Sessions is session_manager.c and session_registry.c; Relay,
--               Quest and Dialogue are the policies of that name; Geometry, Validation and Authority
--               are combat_geometry.c, los_policy.c, interest_manager.c, authority_validation.c and
--               authority_core.c; Transport is transport_loop.c: the context and the framing, with
--               Send (what is sent), Players (profiles, connections), World (what handlers reach),
--               Requests and Hello (the cases of tl_handle_envelope), Handle (the function itself)
--               and Tick (tl_tick)
--   Client      plugin/src: Records is proxy_runtime.h and plugin_proxy_actor_contract.h; Table has the
--               loops over the plugin's slot arrays, with the finite map that they stand for (Model);
--               Runtime and Events are proxy_runtime.c; Scene is fo4_proxy_actor_driver.c (Driver),
--               fo4_proxy_actor_spawn_contract.c and fo4_proxy_actor_live_candidate.c (Contract),
--               fo4_scene_proxy_backend_stub.c (Backend, Updates) and fo4_proxy_actor_backend_stub.c
--               (Stub); Policy is remote_proxy_update_policy.c; Manager is remote_proxy_manager.c and
--               remote_proxy_backend.c; Apply is protocol_apply.c; Delivery relates it to what the
--               service sends; Link is plugin_transport_client.c; Movement is movement_sync_bridge.c;
--               Observer is local_player_observer.c and local_player_observer_stats.c, with
--               local_player_observer_provider.c (Provider) and commonlibf4_player_live_adapter.c
--               (Adapter); Bridge is movement_live_client_bridge.c, which ties these together;
--               Startup is commonlibf4_hook_install_registry.cpp, hook_bringup_config.c,
--               hook_bringup_policy.c, startup_blocking_policy.c and plugin_startup_selfcheck.c; Dispatch is
--               hook_dispatch_registry.c, the *_event_translation.c files and fo4_bridge_ingress.c
--   Examples    in Client, Codec, Service and Service/Transport: the theorems at concrete inputs
--
-- A function of the source keeps its name. One that writes through a pointer returns what it
-- wrote; one that returns a bool beside an output returns an option, or the bool and the new state. A
-- machine integer is a natural number with its wrap-around written out; a signed number and a float
-- are their bit patterns. Float arithmetic is a parameter (Service/Floats), of which nothing is
-- assumed. A char array is the C string in it. A loop to the first slot that passes a test is
-- find_first or update_first. All loops run over lists or fixed counts, so no fuel is needed.
--
-- The session of a transport context is reached through that context alone, so it is a field of it. What
-- the handlers reach besides, the registry, the counters and the whitelist of the authority and the
-- profile files, is the record World of Service/Transport/World. Files are a parameter (ProfileFiles).
--
-- The statics of the plugin's files are records that the functions take and return: ProxyRuntime,
-- ProxyWorld with the scene behind it, and Plugin with the manager's. A pointer to a slot is the id that
-- finds the slot. The UDP socket of the transport client is a parameter (Udp), and so is the capture
-- function of a provider that something else installs.
--
-- Not modelled: sockets and the command line (socket_transport.c, service_main.c), files (profile_store.c,
-- replay_log.c, the JSON of workshop_whitelist.c), the table of sessions of session_manager.c, the two
-- broadcasts of transport_loop.c that carry a list of texts, and of the plugin the
-- installation of the hooks into the game process, their probes and reports, and the file with its
-- settings.
pub mod Base
pub mod Wire
pub mod Messages
pub mod Codec
pub mod Service
pub mod Client
