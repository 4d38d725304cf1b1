-- ===== src/Client/Scene/Backend.antt =====
-- plugin/src/fo4_scene_proxy_backend_stub.c: remote players as actors of the scene, with their
-- presented and their target transforms. The slot that a function holds a pointer to stays the one that
-- its player's id finds.
use f4mp.Base.{ℕ, true, false, not, ◌||◌, none, some, ◌==◌, if◌then◌else◌, replicate}
use f4mp.Messages.Player.{MsgPlayerState}
use f4mp.Service.Zero.{zero_player_state}
use f4mp.Client.Table.{find_slot, write_slot}
use f4mp.Client.Records.{ProxyPlayerSpawnSpec, ProxyPlayerUpdateSpec}
use f4mp.Client.Runtime.{proxy_spawn_player, proxy_despawn_player}
use f4mp.Client.Scene.Records.{
  Fo4SceneProxyPlayerState, Fo4SceneProxyInterpolationConfig, SceneState, ProxyWorld, Act, effect,
  ◌then_act◌, on_runtime, scene_keyed, zero_fo4_scene_proxy_player_state, fsp_cmd_spawn,
  fsp_cmd_despawn,
}
use f4mp.Client.Scene.Driver.{fpad_move, fpad_rotate, fpad_despawn, fpad_get_state, next32, next64}
use f4mp.Client.Scene.Contract.{
  fpalc_spawn_via_driver, fpasc_spawn_via_driver, fpalc_apply_presented_state, fpalc_despawn,
  fpalc_enabled, move_spec, rotate_spec,
}

-- `0.25f` and `0.35f`
abbrev pub default_interp : Fo4SceneProxyInterpolationConfig
default_interp = record {
  enabled = true;
  position_alpha = 0x3e80_0000;
  rotation_alpha = 0x3eb3_3333;
}

unfoldable pub scene_reset : SceneState
scene_reset = record {
  players = replicate 8 zero_fo4_scene_proxy_player_state;
  next_handle = 0;
  spawn_count = 0;
  update_count = 0;
  despawn_count = 0;
  total_command_sequence = 0;
  interp = default_interp;
}

abbrev pub on_scene : (SceneState → SceneState) → ProxyWorld → ProxyWorld
on_scene f w = record w { scene = f w.scene }

-- A write through the pointer to the slot.
abbrev pub write_player :
    ℕ → (Fo4SceneProxyPlayerState → Fo4SceneProxyPlayerState) → ProxyWorld → ProxyWorld
write_player id f = on_scene (λ sc. record sc { players = write_slot id f sc.players })

-- What follows `s = find_slot(player_id); if (!s) return false;`.
abbrev pub with_slot : ℕ → (Fo4SceneProxyPlayerState → Act) → Act
with_slot id body w = elim (find_slot id w.scene.players) [ none ↦ (false, w) | some s ↦ body s w ]

-- The driver's handle, where it has one for the player.
unfoldable pub sync_scene_actor_handle : ℕ → ProxyWorld → ProxyWorld
sync_scene_actor_handle id w = elim (fpad_get_state w id) [
  | none ↦ w
  | some d ↦
      if d.actor_handle == 0
      then w
      else write_player id (λ s. record s { actor_handle = d.actor_handle }) w
]

abbrev presented : Fo4SceneProxyPlayerState → ProxyPlayerUpdateSpec → MsgPlayerState
presented s spec = record zero_player_state {
  player_id = s.player_id;
  position = s.presented_position;
  rotation = s.presented_rotation;
  velocity = spec.velocity;
  stance = spec.stance;
  anim_state = spec.anim_state;
  equipped_form_id = spec.equipped_form_id;
}

unfoldable pub apply_driver_presented_state : Fo4SceneProxyPlayerState → ProxyPlayerUpdateSpec → Act
apply_driver_presented_state s spec w =
    ((if fpalc_enabled w
          then fpalc_apply_presented_state (presented s spec) s.actor_handle
          else (fpad_move (move_spec (presented s spec) s.actor_handle)
              then_act fpad_rotate (rotate_spec (presented s spec) s.actor_handle)))
        then_act effect (sync_scene_actor_handle s.player_id))
      w

unfoldable pub ensure_scene_player_from_spawn : ProxyPlayerSpawnSpec → Act
ensure_scene_player_from_spawn spec w =
    (effect (
          on_scene (λ sc. record sc {
            next_handle = handle;
            players = write_slot spec.player_id (λ _. fresh) sc.players;
          }))
        then_act (if fpalc_enabled w
            then fpalc_spawn_via_driver spec handle
            else fpasc_spawn_via_driver spec handle)
        then_act effect (sync_scene_actor_handle spec.player_id))
      w
  where
    handle : ℕ
    handle = next64 w.scene.next_handle

    fresh : Fo4SceneProxyPlayerState
    fresh = record zero_fo4_scene_proxy_player_state {
      in_use = true;
      player_id = spec.player_id;
      actor_handle = handle;
      visible = true;
      last_spawn = spec;
      presented_position = spec.position;
      presented_rotation = spec.rotation;
      target_position = spec.position;
      target_rotation = spec.rotation;
    }

abbrev spawn_noted : ℕ → SceneState → SceneState
spawn_noted id sc = record sc {
  players =
      write_slot id
        (λ s. record s {
          last_command = fsp_cmd_spawn;
          command_sequence = next32 sc.total_command_sequence;
        })
        sc.players;
  total_command_sequence = next32 sc.total_command_sequence;
  spawn_count = next64 sc.spawn_count;
}

unfoldable pub scene_spawn : ProxyPlayerSpawnSpec → Act
scene_spawn spec = with_slot spec.player_id (λ s.
    ensure_scene_player_from_spawn spec
    then_act on_runtime (proxy_spawn_player spec)
    then_act effect (on_scene (spawn_noted spec.player_id)))

abbrev despawn_noted : ℕ → SceneState → SceneState
despawn_noted id sc = record sc {
  players =
      write_slot id
        (λ s. record s {
          visible = false;
          despawned = true;
          last_command = fsp_cmd_despawn;
          command_sequence = next32 sc.total_command_sequence;
        })
        sc.players;
  total_command_sequence = next32 sc.total_command_sequence;
  despawn_count = next64 sc.despawn_count;
}

unfoldable pub scene_despawn : ℕ → Act
scene_despawn player_id = with_slot player_id (λ s w.
    if not s.in_use || not (s.player_id == player_id)
    then (false, w)
    else (on_runtime (proxy_despawn_player player_id)
          then_act (if fpalc_enabled w then fpalc_despawn player_id else fpad_despawn player_id)
          then_act effect (sync_scene_actor_handle player_id)
          then_act effect (on_scene (despawn_noted player_id)))
        w)
