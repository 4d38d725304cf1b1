-- ===== src/Client/Scene/Updates.antt =====
-- plugin/src/fo4_scene_proxy_backend_stub.c: updates of a remote player, and the steps of its presented
-- transform towards the target.
use f4mp.Base.{
  ℕ, Bool, false, not, ◌&&◌, ◌||◌, Option, none, some, List, [], ◌∷◌, ◌==◌, if◌then◌else◌,
}
use f4mp.Messages.Types.{Vec3f, Rot3f}
use f4mp.Service.Floats.{Floats}
use f4mp.Client.Table.{find_slot, write_slot}
use f4mp.Client.Records.{ProxyPlayerSpawnSpec, ProxyPlayerUpdateSpec, zero_proxy_player_spawn_spec}
use f4mp.Client.Runtime.{proxy_update_player, float_one}
use f4mp.Client.Scene.Records.{
  Fo4SceneProxyPlayerState, Fo4SceneProxyInterpolationConfig, SceneState, ProxyWorld, Act, effect,
  ◌then_act◌, on_runtime, scene_keyed, fsp_cmd_update,
}
use f4mp.Client.Scene.Driver.{next32, next64}
use f4mp.Client.Scene.Backend.{
  on_scene, write_player, with_slot, apply_driver_presented_state, ensure_scene_player_from_spawn,
  default_interp,
}

abbrev update_noted : ℕ → SceneState → SceneState
update_noted id sc = record sc {
  players =
      write_slot id
        (λ s. record s {
          transform_apply_count = next32 s.transform_apply_count;
          last_command = fsp_cmd_update;
          command_sequence = next32 sc.total_command_sequence;
        })
        sc.players;
  total_command_sequence = next32 sc.total_command_sequence;
  update_count = next64 sc.update_count;
}

-- The spawn of a player that is updated first.
abbrev spawn_of_update : ProxyPlayerUpdateSpec → ProxyPlayerSpawnSpec
spawn_of_update spec = record zero_proxy_player_spawn_spec {
  player_id = spec.player_id;
  proxy_net_id = spec.player_id;
  position = spec.position;
  rotation = spec.rotation;
  equipped_form_id = spec.equipped_form_id;
}

module _ (F : Floats) where
  open F use {lt, le, add, sub, mul}

  -- `a == b`, false where one is not a number.
  abbrev equal : ℕ → ℕ → Bool
  equal a b = le a b && le b a

  unfoldable pub clamp01 : ℕ → ℕ
  clamp01 v = if lt v 0 then 0 else if lt float_one v then float_one else v

  unfoldable pub lerpf : ℕ → ℕ → ℕ → ℕ
  lerpf a b t = add a (mul (sub b a) t)

  unfoldable pub same_vec3 : Vec3f → Vec3f → Bool
  same_vec3 a b = equal a.x b.x && equal a.y b.y && equal a.z b.z

  unfoldable pub same_rot3 : Rot3f → Rot3f → Bool
  same_rot3 a b = equal a.pitch b.pitch && equal a.yaw b.yaw && equal a.roll b.roll

  abbrev pub is_pending : Fo4SceneProxyPlayerState → Bool
  is_pending s =
      not (same_vec3 s.presented_position s.target_position)
      || not (same_rot3 s.presented_rotation s.target_rotation)

  -- The new target, which is presented at once after a teleport or without interpolation.
  unfoldable pub retarget :
      Bool → ProxyPlayerUpdateSpec → Fo4SceneProxyPlayerState → Fo4SceneProxyPlayerState
  retarget interpolate spec s =
      if s.last_update_teleported || not interpolate
      then record aimed {
        presented_position = spec.position;
        presented_rotation = spec.rotation;
        interpolation_pending = false;
      }
      else record aimed { interpolation_pending = is_pending aimed }
    where
      aimed : Fo4SceneProxyPlayerState
      aimed = record s {
        last_update = spec;
        target_position = spec.position;
        target_rotation = spec.rotation;
        interpolation_pending = false;
      }

  -- `apply_driver_presented_state(s, spec)` through the pointer.
  abbrev pub present : ℕ → ProxyPlayerUpdateSpec → Act
  present id spec w = with_slot id (λ s. apply_driver_presented_state s spec) w

  unfoldable pub scene_update : ProxyPlayerUpdateSpec → Act
  scene_update spec = with_slot spec.player_id (λ s w.
      ((if s.in_use then effect (λ w. w) else ensure_scene_player_from_spawn (spawn_of_update spec))
          then_act effect (write_player spec.player_id (retarget w.scene.interp.enabled spec))
          then_act on_runtime (proxy_update_player spec)
          then_act present spec.player_id spec
          then_act effect (on_scene (update_noted spec.player_id)))
        w)

  -- The end of the note: a teleport shows the target at once.
  abbrev pub settle : ℕ → Bool → Fo4SceneProxyPlayerState → ProxyWorld → ProxyWorld
  settle id teleported s w =
      if teleported
      then (present id s.last_update (
          write_player id
            (λ _. record s {
              presented_position = s.target_position;
              presented_rotation = s.target_rotation;
              interpolation_pending = false;
            })
            w)).1
      else write_player id (λ _. record s { interpolation_pending = is_pending s }) w

  unfoldable pub fo4_scene_proxy_backend_stub_note_policy_result :
      ℕ → Bool → Bool → Bool → ℕ → ProxyWorld → ProxyWorld
  fo4_scene_proxy_backend_stub_note_policy_result id teleported position rotation distance w =
      elim (find_slot id w.scene.players) [
        | none ↦ w
        | some s ↦
            if not s.in_use || not (s.player_id == id)
            then w
            else settle id teleported
                (record s {
                  last_update_teleported = teleported;
                  last_update_smoothed_position = position;
                  last_update_smoothed_rotation = rotation;
                  last_update_source_distance = distance;
                })
                w
      ]

  unfoldable pub set_interpolation_config :
      Option Fo4SceneProxyInterpolationConfig → SceneState → SceneState
  set_interpolation_config none sc = record sc { interp = default_interp }
  set_interpolation_config (some cfg) sc = record sc {
    interp = record cfg {
      position_alpha = clamp01 cfg.position_alpha;
      rotation_alpha = clamp01 cfg.rotation_alpha;
    };
  }

  abbrev pub lerp_vec : Vec3f → Vec3f → ℕ → Vec3f
  lerp_vec a b t = record { x = lerpf a.x b.x t; y = lerpf a.y b.y t; z = lerpf a.z b.z t }

  abbrev pub lerp_rot : Rot3f → Rot3f → ℕ → Rot3f
  lerp_rot a b t = record {
    pitch = lerpf a.pitch b.pitch t;
    yaw = lerpf a.yaw b.yaw t;
    roll = lerpf a.roll b.roll t;
  }

  -- One step of a slot's presented transform towards its target.
  unfoldable pub interpolate :
      Fo4SceneProxyInterpolationConfig → Fo4SceneProxyPlayerState → Fo4SceneProxyPlayerState
  interpolate cfg s = record moved { interpolation_pending = is_pending moved }
    where
      moved : Fo4SceneProxyPlayerState
      moved = record s {
        presented_position = lerp_vec s.presented_position s.target_position cfg.position_alpha;
        presented_rotation = lerp_rot s.presented_rotation s.target_rotation cfg.rotation_alpha;
      }

  abbrev is_moving : SceneState → Fo4SceneProxyPlayerState → Bool
  is_moving sc s =
      s.in_use && s.visible && not s.despawned && sc.interp.enabled && not s.last_update_teleported

  -- The body of the loop, for a slot that moves.
  unfoldable pub step_player : Fo4SceneProxyPlayerState → ProxyWorld → ProxyWorld
  step_player s w =
      let (ok, w') =
        present s.player_id s.last_update
          (write_player s.player_id (λ _. interpolate w.scene.interp s) w) in
      if ok
      then write_player s.player_id
          (λ t. record t { interpolation_tick_count = next32 t.interpolation_tick_count }) w'
      else w'

  -- The loop. A slot is first written in its own turn, since no two in use have the same player.
  unfoldable pub step_players : List Fo4SceneProxyPlayerState → ProxyWorld → ProxyWorld
  step_players [] w = w
  step_players (s ∷ slots) w =
      step_players slots (if is_moving w.scene s then step_player s w else w)

  unfoldable pub fo4_scene_proxy_backend_stub_step : ProxyWorld → ProxyWorld
  fo4_scene_proxy_backend_stub_step w = step_players w.scene.players w
