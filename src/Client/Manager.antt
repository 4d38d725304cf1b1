-- ===== src/Client/Manager.antt =====
-- plugin/src/remote_proxy_backend.c and remote_proxy_manager.c: where a remote player's states go. The
-- backends are the three that are installed: a table of function pointers is the name of one.
pub mod Tables
pub mod Order
use f4mp.Base.{
  ℕ, ◌+◌, ◌%◌, ◌^◌, Bool, true, false, not, ◌&&◌, ◌||◌, Option, none, some, ◌==◌, ltb, leb,
  if◌then◌else◌,
}
use f4mp.Messages.Player.{MsgPlayerState}
use f4mp.Service.Floats.{Floats}
use f4mp.Client.Table.{write_slot}
use f4mp.Client.Records.{
  ProxyPlayerSpawnSpec, ProxyPlayerUpdateSpec, ProxyPlayerRecord, player_keyed,
  zero_proxy_player_spawn_spec,
}
use f4mp.Client.Runtime.{
  proxy_spawn_player, proxy_update_player, proxy_despawn_player, proxy_runtime_get_player,
}
use f4mp.Client.Policy.{
  RemoteProxyUpdatePolicy, RemoteProxyUpdatePolicyResult, rpup_init_default,
  rpup_apply_player_update_ex,
}
use f4mp.Client.Scene.Records.{ProxyWorld, Act, on_runtime}
use f4mp.Client.Scene.Driver.{next32}
use f4mp.Client.Scene.Backend.{scene_spawn, scene_despawn, scene_reset}
use f4mp.Client.Scene.Updates.{
  scene_update, fo4_scene_proxy_backend_stub_note_policy_result, fo4_scene_proxy_backend_stub_step,
}
use f4mp.Client.Scene.Stub.{
  stub_spawn, stub_update, stub_despawn, fo4_proxy_backend_stub_reset, on_stub,
}

pub data RemoteProxyBackend : Type 0 where
  default_backend scene_backend stub_backend : RemoteProxyBackend

-- The statics of the manager and of what it calls.
pub record Plugin : Type 0 where
  pub world : ProxyWorld
  pub backend : RemoteProxyBackend
  pub policy : RemoteProxyUpdatePolicy
  pub local_player_id : ℕ
  pub rejected_stale_updates : ℕ

unfoldable pub rpb_reset_default_backend : Plugin → Plugin
rpb_reset_default_backend p = record p { backend = default_backend }

-- `backend` is `none` for NULL.
unfoldable pub rpb_install_backend : Option RemoteProxyBackend → Plugin → Plugin
rpb_install_backend none p = rpb_reset_default_backend p
rpb_install_backend (some backend) p = record p { backend = backend }

unfoldable pub fo4_scene_proxy_backend_stub_install : Plugin → Plugin
fo4_scene_proxy_backend_stub_install p =
    rpb_install_backend (some scene_backend)
      (record p { world = record world { scene = scene_reset } })
  where
    open p use {world}

unfoldable pub fo4_proxy_backend_stub_install : Plugin → Plugin
fo4_proxy_backend_stub_install p =
    rpb_install_backend (some stub_backend)
      (record p { world = record world { stub = fo4_proxy_backend_stub_reset } })
  where
    open p use {world}

unfoldable pub rpm_init : ℕ → Plugin → Plugin
rpm_init local_player_id p = record (rpb_reset_default_backend p) {
  local_player_id = local_player_id;
  policy = rpup_init_default;
  rejected_stale_updates = 0;
}

abbrev pub spawn_player : RemoteProxyBackend → ProxyPlayerSpawnSpec → Act
spawn_player default_backend spec = on_runtime (proxy_spawn_player spec)
spawn_player scene_backend spec = scene_spawn spec
spawn_player stub_backend spec = on_stub (stub_spawn spec)

abbrev pub despawn_player : RemoteProxyBackend → ℕ → Act
despawn_player default_backend player_id = on_runtime (proxy_despawn_player player_id)
despawn_player scene_backend player_id = scene_despawn player_id
despawn_player stub_backend player_id = on_stub (stub_despawn player_id)

abbrev pub on_world : Act → Plugin → Bool × Plugin
on_world act p = let (ok, w) = act p.world in (ok, record p { world = w })

abbrev pub remote_player : Plugin → ℕ → Option ProxyPlayerRecord
remote_player p player_id = proxy_runtime_get_player p.world.runtime player_id

-- The spawn and the update that a state asks for.
abbrev pub spawn_spec : MsgPlayerState → ProxyPlayerSpawnSpec
spawn_spec msg = record zero_proxy_player_spawn_spec {
  player_id = msg.player_id;
  proxy_net_id = msg.player_id;
  position = msg.position;
  rotation = msg.rotation;
  equipped_form_id = msg.equipped_form_id;
}

abbrev pub update_spec : MsgPlayerState → ProxyPlayerUpdateSpec
update_spec msg = record {
  player_id = msg.player_id;
  position = msg.position;
  rotation = msg.rotation;
  velocity = msg.velocity;
  stance = msg.stance;
  anim_state = msg.anim_state;
  equipped_form_id = msg.equipped_form_id;
}

-- The two tests of a state against the one that was applied last.
unfoldable pub is_old_state : MsgPlayerState → ProxyPlayerRecord → Bool
is_old_state msg current =
    not (msg.state_sequence == 0)
      && not (current.last_state_sequence == 0)
      && ltb msg.state_sequence current.last_state_sequence
    || (msg.state_sequence == current.last_state_sequence
        && not (msg.observed_tick == 0)
        && not (current.last_observed_tick == 0)
        && leb msg.observed_tick current.last_observed_tick)

-- `mutable_updated->last_state_sequence = ...; mutable_updated->last_observed_tick = ...;`
unfoldable pub note_order : MsgPlayerState → ProxyWorld → ProxyWorld
note_order msg w = elim (proxy_runtime_get_player runtime msg.player_id) [
  | none ↦ w
  | some updated ↦ record w {
    runtime = record runtime {
      players =
          write_slot msg.player_id
            (λ s. record s {
              last_state_sequence = msg.state_sequence;
              last_observed_tick = msg.observed_tick;
            })
            players;
    };
  }
]
  where
    open w use {runtime}
    open runtime use {players}

module _ (F : Floats) where
  abbrev pub update_player : RemoteProxyBackend → ProxyPlayerUpdateSpec → Act
  update_player default_backend spec = on_runtime (proxy_update_player spec)
  update_player scene_backend spec = scene_update F spec
  update_player stub_backend spec = on_stub (stub_update spec)

  unfoldable pub rpb_step_backend : Plugin → Plugin
  rpb_step_backend p = elim p.backend [
    | scene_backend ↦ record p { world = fo4_scene_proxy_backend_stub_step F p.world }
    | _ ↦ p
  ]

  -- The update policy, and its note to the scene, where the player has a record.
  unfoldable pub apply_policy : Plugin → ProxyPlayerUpdateSpec → ProxyPlayerUpdateSpec × ProxyWorld
  apply_policy p up = elim (remote_player p up.player_id) [
    | none ↦ (up, p.world)
    | some current ↦
        let (up', seen) = rpup_apply_player_update_ex F p.policy current up in
        (
          up',
          fo4_scene_proxy_backend_stub_note_policy_result F up.player_id seen.teleported
              seen.smoothed_position seen.smoothed_rotation seen.source_distance p.world,
        )
  ]

  -- The rest of the function, for a state that is not behind.
  unfoldable pub update_remote : MsgPlayerState → Plugin → Bool × Plugin
  update_remote msg p =
      let (up, w) = apply_policy p (update_spec msg) in
      let (ok, w') = update_player p.backend up w in
      if ok
      then (true, record p { world = note_order msg w' })
      else (false, record p { world = w' })

  -- The tests, where the player has a record.
  unfoldable pub check_order : MsgPlayerState → Plugin → Bool × Plugin
  check_order msg p = elim (remote_player p msg.player_id) [
    | none ↦ update_remote msg p
    | some current ↦
        if is_old_state msg current
        then (true, record p { rejected_stale_updates = next32 p.rejected_stale_updates })
        else update_remote msg p
  ]

  unfoldable pub rpm_apply_remote_player_state : MsgPlayerState → Plugin → Bool × Plugin
  rpm_apply_remote_player_state msg p =
      if msg.player_id == 0 || msg.player_id == p.local_player_id
      then (true, p)
      else elim (remote_player p msg.player_id) [
        | some current ↦ check_order msg p
        | none ↦
            let (ok, p') = on_world (spawn_player p.backend (spawn_spec msg)) p in
            if ok then check_order msg p' else (false, p')
      ]

unfoldable pub rpm_remove_remote_player : ℕ → Plugin → Bool × Plugin
rpm_remove_remote_player player_id p =
    if player_id == p.local_player_id
    then (true, p)
    else on_world (despawn_player p.backend player_id) p

unfoldable pub rpm_get_remote_player : Plugin → ℕ → Option ProxyPlayerRecord
rpm_get_remote_player p player_id =
    if player_id == p.local_player_id then none else remote_player p player_id
