-- ===== src/Service/Transport/Requests.antt =====
-- service/src/transport_loop.c: the cases of the switch of tl_handle_envelope.
use f4mp.Base.{ℕ, Bool, true, false, not, none, some, ◌==◌, if◌then◌else◌}
use f4mp.Wire.Reader.{PacketReader}
use f4mp.Messages.Player.{MsgPlayerState}
use f4mp.Messages.Combat.{MsgDamageResult}
use f4mp.Codec.Control.{decode_msg_ping, decode_msg_disconnect}
use f4mp.Codec.Player.{decode_msg_player_state, decode_msg_input_state}
use f4mp.Codec.Combat.{decode_msg_fire_intent}
use f4mp.Codec.Workshop.{
  decode_msg_build_request, decode_msg_object_move_request, decode_msg_object_scrap_request,
  encode_msg_build_result,
}
use f4mp.Codec.Ui.{decode_msg_dialogue_select}
use f4mp.Service.State.{PlayerRuntimeState}
use f4mp.Service.Store.{find_player, find_actor, find_object, with_player}
use f4mp.Service.Sessions.{sm_remove_player}
use f4mp.Service.Relay.{psr_evaluate, accept, reject}
use f4mp.Service.Dialogue.{accepted, dsp_apply_selection}
use f4mp.Service.Floats.{Floats}
use f4mp.Service.Authority.{
  FireResult, ac_handle_input_state, ac_handle_fire_intent, ac_handle_build_request,
  ac_handle_object_move, ac_handle_object_scrap,
}
use f4mp.Service.Transport.{TransportLoopContext, tl_send_single}
use f4mp.Service.Transport.Send.{
  reliable, ch3_work, tl_broadcast_player_left, tl_broadcast_player_state, tl_broadcast_damage,
  tl_broadcast_death, tl_broadcast_actor_state, tl_broadcast_object_spawn,
  tl_broadcast_object_update, tl_broadcast_object_despawn, tl_send_pong,
}
use f4mp.Service.Transport.World.{World, with_ctx, with_session, heard, decoded}

-- The player's stats change in any case, and its state if the policy accepts.
abbrev pub relayed : MsgPlayerState → ℕ → PlayerRuntimeState → PlayerRuntimeState
relayed msg tick p = record p {
  last_heard_tick = tick;
  relay_stats = (psr_evaluate p.relay_stats msg).1;
  replicated_state = elim (psr_evaluate p.relay_stats msg).0 [
    | accept ↦ msg
    | reject ↦ p.replicated_state
  ];
}

abbrev pub zero_damage : MsgDamageResult
zero_damage = record {
  attacker_id = 0;
  victim_actor_net_id = 0;
  damage_amount = 0;
  damage_type = 0;
  reserved0 = 0;
  flags = 0;
  health_after = 0;
}

-- The broadcasts after a shot.
unfoldable pub announce_shot : FireResult → TransportLoopContext → TransportLoopContext
announce_shot res ctx =
    if res.damage.victim_actor_net_id == 0
    then ctx
    else (let ctx₁ = tl_broadcast_damage ctx res.damage in
        let ctx₂ : TransportLoopContext =
          elim (find_actor ctx₁.session res.damage.victim_actor_net_id) [
            | none ↦ ctx₁
            | some a ↦ tl_broadcast_actor_state ctx₁ a
          ] in
        elim res.death [ none ↦ ctx₂ | some d ↦ tl_broadcast_death ctx₂ d ])

module _ {Disk : Type 0} where
  unfoldable pub on_ping : World Disk → ℕ → PacketReader → ℕ → Bool × World Disk
  on_ping w connection_id r player_id = decoded decode_msg_ping r w λ msg.
      let w' = heard w player_id in
      let (ok, ctx) = tl_send_pong w'.ctx connection_id msg.time_ms in (ok, with_ctx w' ctx)

  unfoldable pub on_disconnect : World Disk → PacketReader → ℕ → Bool × World Disk
  on_disconnect w r player_id = decoded decode_msg_disconnect r w λ msg.
      let w' = heard w player_id in
      let ctx = tl_broadcast_player_left w'.ctx player_id in
      (true, with_ctx w' (record ctx { session = (sm_remove_player ctx.session player_id).1 }))

  unfoldable pub on_player_state : World Disk → PacketReader → ℕ → Bool × World Disk
  on_player_state w r player_id = decoded decode_msg_player_state r w λ msg.
      if not (msg.player_id == player_id)
      then (false, w)
      else elim (find_player w.ctx.session player_id) [
        | none ↦ (false, w)
        | some p ↦
            let w' =
              with_session w
                (with_player w.ctx.session player_id (relayed msg w.ctx.current_tick)) in
            elim (psr_evaluate p.relay_stats msg).0 [
              | reject ↦ (true, w')
              | accept ↦ (
                true,
                with_ctx w' (tl_broadcast_player_state w'.ctx (relayed msg w.ctx.current_tick p)),
              )
            ]
      ]

  unfoldable pub on_input_state : World Disk → PacketReader → ℕ → Bool × World Disk
  on_input_state w r player_id = decoded decode_msg_input_state r w λ msg.
      let (ok, s) = ac_handle_input_state w.ctx.session msg player_id in
      if not ok
      then (false, with_session w s)
      else (let w' = heard (with_session w s) player_id in
          elim (find_player w'.ctx.session player_id) [
            | none ↦ (false, with_session w s)
            | some p ↦ (true, with_ctx w' (tl_broadcast_player_state w'.ctx p))
          ])

  unfoldable pub on_object_scrap : World Disk → PacketReader → ℕ → Bool × World Disk
  on_object_scrap w r player_id = decoded decode_msg_object_scrap_request r w λ msg.
      if not (msg.player_id == player_id)
      then (false, w)
      else (let (ok, s) = ac_handle_object_scrap w.ctx.session msg in
          let w' = with_session w s in
          if ok
          then (true, with_ctx w' (tl_broadcast_object_despawn w'.ctx msg.object_net_id 0))
          else (false, w'))

  unfoldable pub on_dialogue_select : World Disk → PacketReader → ℕ → Bool × World Disk
  on_dialogue_select w r player_id = decoded decode_msg_dialogue_select r w λ msg.
      let (res, s) = dsp_apply_selection w.ctx.session player_id msg in
      let w' = with_session w s in
      elim res [
        | accepted ↦ (
          true,
          with_ctx w' (record (w'.ctx) {
            has_pending_dialogue_select = true;
            pending_dialogue_player_id = player_id;
            pending_dialogue_select = msg;
          }),
        )
        | other ↦ (false, w')
      ]

module _ (F : Floats) {Disk : Type 0} where
  unfoldable pub on_fire_intent : World Disk → PacketReader → ℕ → Bool × World Disk
  on_fire_intent w r player_id = decoded decode_msg_fire_intent r w λ msg.
      if not (msg.player_id == player_id)
      then (false, w)
      else (let w' = heard w player_id in
          elim (ac_handle_fire_intent F w'.ctx.session msg zero_damage) [
            | none ↦ (false, w')
            | some res ↦
                (true, with_ctx w' (announce_shot res (record (w'.ctx) { session = res.session })))
          ])

  unfoldable pub on_build_request : World Disk → ℕ → PacketReader → ℕ → Bool × World Disk
  on_build_request w connection_id r player_id = decoded decode_msg_build_request r w λ msg.
      if not (msg.player_id == player_id)
      then (false, w)
      else (let w' = heard w player_id in
          let (result, a) =
            ac_handle_build_request F
              (record {
                session = w'.ctx.session;
                next_object_id = w'.next_object_id;
                next_actor_id = w'.next_actor_id;
                whitelist = w'.whitelist;
              })
              msg in
          let w'' = record (with_session w' a.session) {
            next_object_id = a.next_object_id;
            next_actor_id = a.next_actor_id;
          } in
          let ctx =
            (tl_send_single w''.ctx connection_id 0x0402 (reliable ch3_work)
              (encode_msg_build_result result)).1 in
          if result.accepted == 0 then (true, with_ctx w'' ctx) else (
            true,
            with_ctx w'' (elim (find_object ctx.session result.object_net_id) [
              | none ↦ ctx
              | some o ↦ tl_broadcast_object_spawn ctx o
            ]),
          ))

  unfoldable pub on_object_move : World Disk → PacketReader → ℕ → Bool × World Disk
  on_object_move w r player_id = decoded decode_msg_object_move_request r w λ msg.
      if not (msg.player_id == player_id)
      then (false, w)
      else (let (ok, s) = ac_handle_object_move F w.ctx.session msg in
          let w' = with_session w s in
          if not ok then (false, w') else elim (find_object s msg.object_net_id) [
            | none ↦ (true, w')
            | some o ↦ (true, with_ctx w' (tl_broadcast_object_update w'.ctx o 7))
          ])
