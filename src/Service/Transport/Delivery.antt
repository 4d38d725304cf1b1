-- ===== src/Service/Transport/Delivery.antt =====
-- tl_handle_envelope and the queue of outputs.
use f4mp.Base.{ℕ, ◌==◌, Bool, true, false, not, Option, none, some, List, if◌then◌else◌, ltb}
use f4mp.Wire.Reader.{PacketReader, pr_init}
use f4mp.Codec.Player.{decode_msg_player_state, decode_msg_input_state}
use f4mp.Codec.Header.{decode_packet_header, decode_message_header}
use f4mp.Codec.Control.{decode_msg_hello}
use f4mp.Codec.Ui.{decode_msg_dialogue_select}
use f4mp.Codec.Combat.{decode_msg_fire_intent}
use f4mp.Codec.Workshop.{
  decode_msg_build_request, decode_msg_object_scrap_request, decode_msg_object_move_request,
}
use f4mp.Service.Store.{find_player, with_player}
use f4mp.Messages.Header.{PacketHeader, MessageHeader}
use f4mp.Service.State.{PlayerRuntimeState, ObjectRuntimeState}
use f4mp.Service.Relay.{psr_evaluate, PlayerStateRelayDecision, accept, reject}
use f4mp.Service.Dialogue.{
  DialogueSelectionResult, accepted, no_active_dialogue, dialogue_mismatch, choice_not_found,
  choice_disabled, dsp_apply_selection,
}
use f4mp.Service.Sessions.{sr_find_player_id, sm_join_session, sm_reconnect_player}
use f4mp.Service.Floats.{Floats}
use f4mp.Service.Authority.{
  FireResult, ac_handle_fire_intent, ac_handle_object_scrap, ac_handle_object_move,
}
use f4mp.Service.Transport.{TransportEnvelope}
use f4mp.Service.Transport.Send.{
  tl_broadcast_player_left, tl_send_pong, tl_send_welcome, tl_send_profile_snapshot,
}
use f4mp.Service.Transport.Players.{ProfileFiles, tl_find_player_by_connection}
use f4mp.Service.Transport.World.{World, received, heard, with_session}
use f4mp.Service.Transport.Requests.{
  zero_damage, on_ping, on_disconnect, on_player_state, on_input_state, on_fire_intent,
  on_build_request, on_object_move, on_object_scrap, on_dialogue_select,
}
use f4mp.Service.Transport.Hello.{greet, on_hello, admit, free_player_id, welcome}
use f4mp.Service.Transport.Handle.{
  f4mp_validate_packet_header, f4mp_validate_message_header, dispatch, tl_handle_message,
  tl_handle_packet, tl_handle_envelope,
}
use f4mp.Service.Transport.Outputs.{IsQueue, tl_send_single-IsQueue}
use f4mp.Service.Transport.Outputs.Sends.{
  broadcast-IsQueue, case-IsQueue, announce_shot-IsQueue, tl_send_profile_snapshot-IsQueue,
  player_state-IsQueue, despawn-IsQueue, update-IsQueue, spawn-IsQueue, welcomed-IsQueue,
  existing-IsQueue,
}

module _ {Disk : Type 0} where
  if-IsQueue :
      {B : Type 0} (b : Bool) (x y : B × World Disk)
      → IsQueue x.1.ctx.outputs
      → IsQueue y.1.ctx.outputs
      → IsQueue (if b then x else y).1.ctx.outputs
  if-IsQueue true x y h k = h
  if-IsQueue false x y h k = k

  option-IsQueue :
      {A B : Type 0} (o : Option A) (x : B × World Disk) (f : A → B × World Disk)
      → IsQueue x.1.ctx.outputs
      → ((a : A) → IsQueue (f a).1.ctx.outputs)
      → IsQueue (elim o as (λ _. B × World Disk) [ none ↦ x | some a ↦ f a ]).1.ctx.outputs
  option-IsQueue none x f h k = h
  option-IsQueue (some a) x f h k = k a

  decision-IsQueue :
      (d : PlayerStateRelayDecision) (x y : Bool × World Disk)
      → IsQueue x.1.ctx.outputs
      → IsQueue y.1.ctx.outputs
      → IsQueue (elim d as (λ _. Bool × World Disk) [ reject ↦ x | accept ↦ y ]).1.ctx.outputs
  decision-IsQueue reject x y h k = h
  decision-IsQueue accept x y h k = k

  selection-IsQueue :
      (d : DialogueSelectionResult) (x y : Bool × World Disk)
      → IsQueue x.1.ctx.outputs
      → IsQueue y.1.ctx.outputs
      → IsQueue (elim d as (λ _. Bool × World Disk) [ accepted ↦ x | other ↦ y ]).1.ctx.outputs
  selection-IsQueue accepted x y h k = h
  selection-IsQueue no_active_dialogue x y h k = k
  selection-IsQueue dialogue_mismatch x y h k = k
  selection-IsQueue choice_not_found x y h k = k
  selection-IsQueue choice_disabled x y h k = k

  on_ping-IsQueue :
      (w : World Disk) (c : ℕ) (r : PacketReader) (id : ℕ)
      → IsQueue w.ctx.outputs
      → IsQueue (on_ping w c r id).1.ctx.outputs
  unfolding on_ping tl_send_pong
  on_ping-IsQueue w c r id h = option-IsQueue _ _ _ h (λ msg. tl_send_single-IsQueue _ _ _ _ _ h)

  on_disconnect-IsQueue :
      (w : World Disk) (r : PacketReader) (id : ℕ)
      → IsQueue w.ctx.outputs
      → IsQueue (on_disconnect w r id).1.ctx.outputs
  unfolding on_disconnect tl_broadcast_player_left
  on_disconnect-IsQueue w r id h = option-IsQueue _ _ _ h (λ msg. broadcast-IsQueue _ _ _ _ h)

  on_player_state-IsQueue :
      (w : World Disk) (r : PacketReader) (id : ℕ)
      → IsQueue w.ctx.outputs
      → IsQueue (on_player_state w r id).1.ctx.outputs
  unfolding on_player_state
  on_player_state-IsQueue w r id h = option-IsQueue (decode_msg_player_state r).0 _ _ h (λ msg.
      if-IsQueue _ _ _ h (
        option-IsQueue (find_player w.ctx.session id) _ _ h (λ p.
          decision-IsQueue (psr_evaluate p.relay_stats msg).0 _ _ h (player_state-IsQueue _ _ h))))

  on_input_state-IsQueue :
      (w : World Disk) (r : PacketReader) (id : ℕ)
      → IsQueue w.ctx.outputs
      → IsQueue (on_input_state w r id).1.ctx.outputs
  unfolding on_input_state
  on_input_state-IsQueue w r id h = option-IsQueue (decode_msg_input_state r).0 _ _ h (λ msg.
      if-IsQueue _ _ _ h
        (option-IsQueue {A = PlayerRuntimeState} _ _ _ h (λ p. player_state-IsQueue _ _ h)))

  on_object_scrap-IsQueue :
      (w : World Disk) (r : PacketReader) (id : ℕ)
      → IsQueue w.ctx.outputs
      → IsQueue (on_object_scrap w r id).1.ctx.outputs
  unfolding on_object_scrap
  on_object_scrap-IsQueue w r id h =
      option-IsQueue (decode_msg_object_scrap_request r).0 _ _ h (λ msg.
        if-IsQueue (not (msg.player_id == id)) (false, w) _ h
          (if-IsQueue (ac_handle_object_scrap w.ctx.session msg).0 _ _
            (despawn-IsQueue _ msg.object_net_id 0 h) h))

  on_dialogue_select-IsQueue :
      (w : World Disk) (r : PacketReader) (id : ℕ)
      → IsQueue w.ctx.outputs
      → IsQueue (on_dialogue_select w r id).1.ctx.outputs
  unfolding on_dialogue_select
  on_dialogue_select-IsQueue w r id h =
      option-IsQueue (decode_msg_dialogue_select r).0 _ _ h
        (λ msg. selection-IsQueue (dsp_apply_selection w.ctx.session id msg).0 _ _ h h)

  admit-IsQueue :
      (w : World Disk) (c : ℕ) (guid : List ℕ)
      → IsQueue w.ctx.outputs
      → IsQueue (admit w c guid).1.ctx.outputs
  unfolding admit
  admit-IsQueue w c guid h =
      option-IsQueue {A = ℕ} (sr_find_player_id w.registry guid) _ _
        (option-IsQueue {A = ℕ} (free_player_id w.ctx.session 7 1) _ _ h
          (λ id. if-IsQueue (sm_join_session w.ctx.session id c).0 _ _ h h))
        (λ id. if-IsQueue (sm_reconnect_player w.ctx.session id c).0 _ _ h h)

module _ (F : Floats) {Disk : Type 0} (files : ProfileFiles Disk) where
  on_fire_intent-IsQueue :
      (w : World Disk) (r : PacketReader) (id : ℕ)
      → IsQueue w.ctx.outputs
      → IsQueue (on_fire_intent F w r id).1.ctx.outputs
  unfolding on_fire_intent
  on_fire_intent-IsQueue w r id h = option-IsQueue (decode_msg_fire_intent r).0 _ _ h (λ msg.
      if-IsQueue (not (msg.player_id == id)) (false, w) _ h
        (option-IsQueue {A = FireResult}
          (ac_handle_fire_intent F (heard w id).ctx.session msg zero_damage) _ _ h
          (λ res. announce_shot-IsQueue res _ h)))

  on_build_request-IsQueue :
      (w : World Disk) (c : ℕ) (r : PacketReader) (id : ℕ)
      → IsQueue w.ctx.outputs
      → IsQueue (on_build_request F w c r id).1.ctx.outputs
  unfolding on_build_request
  on_build_request-IsQueue w c r id h = option-IsQueue (decode_msg_build_request r).0 _ _ h (λ msg.
      if-IsQueue (not (msg.player_id == id)) (false, w) _ h
        (let sent = tl_send_single-IsQueue _ _ _ _ _ h in
          if-IsQueue _ _ _ sent (case-IsQueue _ _ _ sent (λ o. spawn-IsQueue _ _ sent))))

  on_object_move-IsQueue :
      (w : World Disk) (r : PacketReader) (id : ℕ)
      → IsQueue w.ctx.outputs
      → IsQueue (on_object_move F w r id).1.ctx.outputs
  unfolding on_object_move
  on_object_move-IsQueue w r id h =
      option-IsQueue (decode_msg_object_move_request r).0 _ _ h (λ msg.
        if-IsQueue (not (msg.player_id == id)) (false, w) _ h
          (if-IsQueue (not (ac_handle_object_move F w.ctx.session msg).0) _ _ h
            (option-IsQueue {A = ObjectRuntimeState} _ _ _ h (λ o. update-IsQueue _ _ _ h))))

  welcome-IsQueue :
      (w : World Disk) (c : ℕ) (guid name : List ℕ) (id : ℕ)
      → IsQueue w.ctx.outputs
      → IsQueue (welcome F files w c guid name id).1.ctx.outputs
  unfolding welcome
  welcome-IsQueue w c guid name id h =
      option-IsQueue (find_player w.ctx.session id) (false, w) _ h
        (λ p.
          let slot : PlayerRuntimeState = (greet F files w c guid name id p).0 in
          let w' : World Disk = record (with_session w (with_player w.ctx.session id (λ _. slot))) {
            disk = (greet F files w c guid name id p).1;
          } in
          let sent : IsQueue (tl_send_welcome w'.ctx c id).1.outputs =
            welcomed-IsQueue w'.ctx c id h in
          let told : IsQueue
              (tl_send_profile_snapshot (tl_send_welcome w'.ctx c id).1 c slot).1.outputs =
            tl_send_profile_snapshot-IsQueue (tl_send_welcome w'.ctx c id).1 c slot sent in
          if-IsQueue (not (tl_send_welcome w'.ctx c id).0) _ _ sent (
            if-IsQueue (not (tl_send_profile_snapshot (tl_send_welcome w'.ctx c id).1 c slot).0) _ _
              told
              (existing-IsQueue F
                (tl_send_profile_snapshot (tl_send_welcome w'.ctx c id).1 c slot).1 c id told)))

  on_hello-IsQueue :
      (w : World Disk) (c : ℕ) (r : PacketReader)
      → IsQueue w.ctx.outputs
      → IsQueue (on_hello F files w c r).1.ctx.outputs
  unfolding on_hello
  on_hello-IsQueue w c r h =
      option-IsQueue (decode_msg_hello 65 65 r).0 _ _ h (λ (hello, guid, name).
        let in_ = admit-IsQueue w c guid h in
        option-IsQueue (admit w c guid).0 (false, (admit w c guid).1) _ in_
          (λ id. welcome-IsQueue (admit w c guid).1 c guid name id in_))

  dispatch-IsQueue :
      (w : World Disk) (c type : ℕ) (r : PacketReader) (id : ℕ)
      → IsQueue w.ctx.outputs
      → IsQueue (dispatch F files w c type r id).1.ctx.outputs
  unfolding dispatch
  dispatch-IsQueue w c type r id h =
      if-IsQueue (type == 0x0003) (on_ping w c r id) _ (on_ping-IsQueue w c r id h) (
        if-IsQueue (type == 0x0005) (on_disconnect w r id) _ (on_disconnect-IsQueue w r id h) (
          if-IsQueue (type == 0x0102) (on_player_state w r id) _ (on_player_state-IsQueue w r id h)
            (if-IsQueue (type == 0x0101) (on_input_state w r id) _ (on_input_state-IsQueue w r id h)
              (if-IsQueue (type == 0x0301) (on_fire_intent F w r id) _
                (on_fire_intent-IsQueue w r id h)
                (if-IsQueue (type == 0x0401) (on_build_request F w c r id) _
                  (on_build_request-IsQueue w c r id h)
                  (if-IsQueue (type == 0x0404) (on_object_move F w r id) _
                    (on_object_move-IsQueue w r id h)
                    (if-IsQueue (type == 0x0405) (on_object_scrap w r id) _
                      (on_object_scrap-IsQueue w r id h)
                      (if-IsQueue (type == 0x0504) (on_dialogue_select w r id) _
                        (on_dialogue_select-IsQueue w r id h) h))))))))

  message-IsQueue :
      (w : World Disk) (c : ℕ) (mh : MessageHeader) (r : PacketReader)
      → IsQueue w.ctx.outputs
      → IsQueue (tl_handle_message F files w c mh r).1.ctx.outputs
  unfolding tl_handle_message
  message-IsQueue w c mh r h =
      if-IsQueue (mh.type == 1) (on_hello F files w c r) _ (on_hello-IsQueue w c r h) (
        option-IsQueue (tl_find_player_by_connection w.ctx.session c) (false, w) _ h
          (λ p. dispatch-IsQueue w c mh.type r p.player_id h))

  packet-IsQueue :
      (w : World Disk) (c : ℕ) (ph : PacketHeader) (r : PacketReader)
      → IsQueue w.ctx.outputs
      → IsQueue (tl_handle_packet F files w c ph r).1.ctx.outputs
  unfolding tl_handle_packet
  packet-IsQueue w c ph r h =
      let w' = received w ph.sequence in
      option-IsQueue (decode_message_header r).0 (false, w') _ h
        (λ mh.
          if-IsQueue (f4mp_validate_message_header mh)
            (tl_handle_message F files w' c mh (decode_message_header r).1) (false, w')
            (message-IsQueue w' c mh (decode_message_header r).1 h) h)

  -- Whatever arrives, and whatever it leads to, the queue stays within its array of 64 outputs, each of 1
  -- to 1400 bytes.
  pub tl_handle_envelope-IsQueue :
      (w : World Disk) (env : TransportEnvelope)
      → IsQueue w.ctx.outputs
      → IsQueue (tl_handle_envelope F files w env).1.ctx.outputs
  unfolding tl_handle_envelope
  tl_handle_envelope-IsQueue w env h =
      let r = pr_init env.bytes env.length in
      if-IsQueue (ltb env.length 34) (false, w) _ h
        (option-IsQueue (decode_packet_header r).0 (false, w) _ h
          (λ ph.
            if-IsQueue (f4mp_validate_packet_header ph)
              (tl_handle_packet F files w env.connection_id ph (decode_packet_header r).1)
              (false, w) (packet-IsQueue w env.connection_id ph (decode_packet_header r).1 h) h))
