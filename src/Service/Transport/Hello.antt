-- ===== src/Service/Transport/Hello.antt =====
-- service/src/transport_loop.c: the hello case of tl_handle_envelope.
use f4mp.Base.{ℕ, zero, suc, Bool, true, false, not, Option, none, some, List, if◌then◌else◌, take}
use f4mp.Wire.Reader.{PacketReader}
use f4mp.Codec.Control.{decode_msg_hello}
use f4mp.Service.State.{SessionState, PlayerRuntimeState}
use f4mp.Service.Slots.{is_some}
use f4mp.Service.Store.{find_player, with_player}
use f4mp.Service.Sessions.{sm_join_session, sm_reconnect_player, sr_find_player_id, sr_bind_player}
use f4mp.Service.Floats.{Floats}
use f4mp.Service.Transport.Send.{tl_send_welcome, tl_send_profile_snapshot}
use f4mp.Service.Transport.Players.{
  ProfileFiles, tl_load_profile_into_player, tl_send_existing_state_to_player,
}
use f4mp.Service.Transport.World.{World, with_ctx, with_session, decoded}

-- The first id from `id` on, of `n`, that no connected player has.
unfoldable pub free_player_id : SessionState → ℕ → ℕ → Option ℕ
free_player_id s zero id = none
free_player_id s (suc n) id =
    let rest = free_player_id s n (suc id) in if is_some (find_player s id) then rest else some id

module _ {Disk : Type 0} where
  -- The id of the player that says hello, with its slot taken; `none` where the handler returns false.
  unfoldable pub admit : World Disk → ℕ → List ℕ → Option ℕ × World Disk
  unfolding free_player_id
  admit w connection_id guid = elim (sr_find_player_id w.registry guid) [
    | none ↦ elim (free_player_id w.ctx.session 7 1) [
      | none ↦ (none, w)
      | some id ↦
          let (ok, s) = sm_join_session w.ctx.session id connection_id in
          if ok
          then (some id, record (with_session w s) { registry = sr_bind_player w.registry guid id })
          else (none, w)
    ]
    | some id ↦
        let (ok, s) = sm_reconnect_player w.ctx.session id connection_id in
        if ok then (some id, with_session w s) else (none, w)
  ]

module _ (F : Floats) {Disk : Type 0} (files : ProfileFiles Disk) where
  -- The slot with its names, connection and profile; `strncpy` keeps 63 bytes of each name.
  unfoldable pub greet :
      World Disk → ℕ → List ℕ → List ℕ → ℕ → PlayerRuntimeState → PlayerRuntimeState × Disk
  greet w connection_id guid name id p = tl_load_profile_into_player files w.disk (record p {
    profile_ref = record { player_guid = take 63 guid; display_name = take 63 name };
    connection_id = connection_id;
    last_heard_tick = w.ctx.current_tick;
  })

  -- Once a player id is found.
  unfoldable pub welcome : World Disk → ℕ → List ℕ → List ℕ → ℕ → Bool × World Disk
  unfolding greet
  welcome w connection_id guid name id = elim (find_player w.ctx.session id) [
    | none ↦ (false, w)
    | some p ↦
        let (slot, disk) = greet w connection_id guid name id p in
        let w' = record (with_session w (with_player w.ctx.session id (λ _. slot))) {
          disk = disk;
        } in
        let (ok, ctx) = tl_send_welcome w'.ctx connection_id id in
        if not ok
        then (false, with_ctx w' ctx)
        else (let (ok', ctx') = tl_send_profile_snapshot ctx connection_id slot in
            if not ok'
            then (false, with_ctx w' ctx')
            else (true, with_ctx w' (tl_send_existing_state_to_player F ctx' connection_id id)))
  ]

  -- GUID and name go into arrays of 65 bytes.
  unfoldable pub on_hello : World Disk → ℕ → PacketReader → Bool × World Disk
  unfolding admit welcome
  on_hello w connection_id r = decoded (decode_msg_hello 65 65) r w λ (hello, guid, name).
      let (id?, w') = admit w connection_id guid in
      elim id? [ none ↦ (false, w') | some id ↦ welcome w' connection_id guid name id ]
