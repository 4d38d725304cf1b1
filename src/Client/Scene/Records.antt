-- ===== src/Client/Scene/Records.antt =====
-- plugin/include/fo4_proxy_actor_driver.h, fo4_proxy_actor_spawn_contract.h,
-- fo4_proxy_actor_live_candidate.h, fo4_scene_proxy_backend_stub.h and fo4_proxy_actor_backend_stub.h:
-- what stands behind a remote player in the game's scene. A pointer to a text is `none` where it is
-- null.
use f4mp.Base.{ℕ, Bool, true, false, Option, none, List}
use f4mp.Messages.Types.{Vec3f, Rot3f}
use f4mp.Service.Zero.{zero_vec, zero_rot}
use f4mp.Client.Table.{Keyed}
use f4mp.Client.Records.{
  ProxyPlayerSpawnSpec, ProxyPlayerUpdateSpec, ProxyRuntime, zero_proxy_player_spawn_spec,
  zero_proxy_player_update_spec,
}

pub data Fo4ProxyActorDriverCommand : Type 0 where
  fpad_cmd_none fpad_cmd_create fpad_cmd_move fpad_cmd_rotate fpad_cmd_despawn :
      Fo4ProxyActorDriverCommand

pub data Fo4SceneProxyLastCommand : Type 0 where
  fsp_cmd_none fsp_cmd_spawn fsp_cmd_update fsp_cmd_despawn : Fo4SceneProxyLastCommand

pub record Fo4ProxyActorCreateSpec : Type 0 where
  pub player_id : ℕ
  pub proxy_net_id : ℕ
  pub proxy_base_form_id : ℕ
  pub actor_handle : ℕ
  pub position : Vec3f
  pub rotation : Rot3f
  pub equipped_form_id : ℕ

abbrev pub zero_fo4_proxy_actor_create_spec : Fo4ProxyActorCreateSpec
zero_fo4_proxy_actor_create_spec = record {
  player_id = 0;
  proxy_net_id = 0;
  proxy_base_form_id = 0;
  actor_handle = 0;
  position = zero_vec;
  rotation = zero_rot;
  equipped_form_id = 0;
}

pub record Fo4ProxyActorMoveSpec : Type 0 where
  pub player_id : ℕ
  pub actor_handle : ℕ
  pub position : Vec3f
  pub velocity : Vec3f
  pub stance : ℕ
  pub anim_state : ℕ
  pub equipped_form_id : ℕ

abbrev pub zero_fo4_proxy_actor_move_spec : Fo4ProxyActorMoveSpec
zero_fo4_proxy_actor_move_spec = record {
  player_id = 0;
  actor_handle = 0;
  position = zero_vec;
  velocity = zero_vec;
  stance = 0;
  anim_state = 0;
  equipped_form_id = 0;
}

pub record Fo4ProxyActorRotateSpec : Type 0 where
  pub player_id : ℕ
  pub actor_handle : ℕ
  pub rotation : Rot3f

abbrev pub zero_fo4_proxy_actor_rotate_spec : Fo4ProxyActorRotateSpec
zero_fo4_proxy_actor_rotate_spec = record { player_id = 0; actor_handle = 0; rotation = zero_rot }

pub record Fo4ProxyActorState : Type 0 where
  pub in_use : Bool
  pub visible : Bool
  pub despawned : Bool
  pub player_id : ℕ
  pub proxy_net_id : ℕ
  pub proxy_base_form_id : ℕ
  pub actor_handle : ℕ
  pub position : Vec3f
  pub rotation : Rot3f
  pub velocity : Vec3f
  pub stance : ℕ
  pub anim_state : ℕ
  pub equipped_form_id : ℕ
  pub create_count : ℕ
  pub move_count : ℕ
  pub rotate_count : ℕ
  pub despawn_count : ℕ
  pub last_command : Fo4ProxyActorDriverCommand
  pub command_sequence : ℕ

abbrev pub zero_fo4_proxy_actor_state : Fo4ProxyActorState
zero_fo4_proxy_actor_state = record {
  in_use = false;
  visible = false;
  despawned = false;
  player_id = 0;
  proxy_net_id = 0;
  proxy_base_form_id = 0;
  actor_handle = 0;
  position = zero_vec;
  rotation = zero_rot;
  velocity = zero_vec;
  stance = 0;
  anim_state = 0;
  equipped_form_id = 0;
  create_count = 0;
  move_count = 0;
  rotate_count = 0;
  despawn_count = 0;
  last_command = fpad_cmd_none;
  command_sequence = 0;
}

-- The static `g_fpad`.
pub record FpadState : Type 0 where
  pub players : List Fo4ProxyActorState
  pub create_count : ℕ
  pub move_count : ℕ
  pub rotate_count : ℕ
  pub despawn_count : ℕ
  pub total_command_sequence : ℕ
  pub next_handle : ℕ

pub record Fo4ProxyActorSpawnContractConfig : Type 0 where
  pub local_player_id : ℕ
  pub default_proxy_base_form_id : ℕ
  pub suppress_self_spawn : Bool
  pub require_base_form_id : Bool

abbrev pub zero_fo4_proxy_actor_spawn_contract_config : Fo4ProxyActorSpawnContractConfig
zero_fo4_proxy_actor_spawn_contract_config = record {
  local_player_id = 0;
  default_proxy_base_form_id = 0;
  suppress_self_spawn = false;
  require_base_form_id = false;
}

pub record Fo4ProxyActorSpawnContractState : Type 0 where
  pub config : Fo4ProxyActorSpawnContractConfig
  pub configured : Bool
  pub plan_count : ℕ
  pub spawn_count : ℕ
  pub reject_count : ℕ
  pub last_player_id : ℕ
  pub last_used_default_base_form : Bool
  pub last_suppressed_self_spawn : Bool
  pub last_create_spec : Fo4ProxyActorCreateSpec

abbrev pub zero_fo4_proxy_actor_spawn_contract_state : Fo4ProxyActorSpawnContractState
zero_fo4_proxy_actor_spawn_contract_state = record {
  config = zero_fo4_proxy_actor_spawn_contract_config;
  configured = false;
  plan_count = 0;
  spawn_count = 0;
  reject_count = 0;
  last_player_id = 0;
  last_used_default_base_form = false;
  last_suppressed_self_spawn = false;
  last_create_spec = zero_fo4_proxy_actor_create_spec;
}

pub record Fo4ProxyActorLiveCandidateConfig : Type 0 where
  pub local_player_id : ℕ
  pub default_proxy_base_form_id : ℕ
  pub suppress_self_spawn : Bool
  pub require_base_form_id : Bool
  pub actor_class_name : Option (List ℕ)
  pub create_api_symbol : Option (List ℕ)
  pub move_api_symbol : Option (List ℕ)
  pub rotate_api_symbol : Option (List ℕ)
  pub despawn_api_symbol : Option (List ℕ)

abbrev pub zero_fo4_proxy_actor_live_candidate_config : Fo4ProxyActorLiveCandidateConfig
zero_fo4_proxy_actor_live_candidate_config = record {
  local_player_id = 0;
  default_proxy_base_form_id = 0;
  suppress_self_spawn = false;
  require_base_form_id = false;
  actor_class_name = none;
  create_api_symbol = none;
  move_api_symbol = none;
  rotate_api_symbol = none;
  despawn_api_symbol = none;
}

pub record Fo4ProxyActorLiveCandidateState : Type 0 where
  pub configured : Bool
  pub enabled : Bool
  pub actor_class_name : Option (List ℕ)
  pub create_api_symbol : Option (List ℕ)
  pub move_api_symbol : Option (List ℕ)
  pub rotate_api_symbol : Option (List ℕ)
  pub despawn_api_symbol : Option (List ℕ)
  pub spawn_count : ℕ
  pub move_count : ℕ
  pub rotate_count : ℕ
  pub despawn_count : ℕ
  pub last_player_id : ℕ
  pub last_actor_handle : ℕ
  pub last_proxy_base_form_id : ℕ
  pub has_driver_state : Bool

abbrev pub zero_fo4_proxy_actor_live_candidate_state : Fo4ProxyActorLiveCandidateState
zero_fo4_proxy_actor_live_candidate_state = record {
  configured = false;
  enabled = false;
  actor_class_name = none;
  create_api_symbol = none;
  move_api_symbol = none;
  rotate_api_symbol = none;
  despawn_api_symbol = none;
  spawn_count = 0;
  move_count = 0;
  rotate_count = 0;
  despawn_count = 0;
  last_player_id = 0;
  last_actor_handle = 0;
  last_proxy_base_form_id = 0;
  has_driver_state = false;
}

pub record Fo4SceneProxyPlayerState : Type 0 where
  pub in_use : Bool
  pub player_id : ℕ
  pub actor_handle : ℕ
  pub visible : Bool
  pub despawned : Bool
  pub last_spawn : ProxyPlayerSpawnSpec
  pub last_update : ProxyPlayerUpdateSpec
  pub presented_position : Vec3f
  pub presented_rotation : Rot3f
  pub target_position : Vec3f
  pub target_rotation : Rot3f
  pub transform_apply_count : ℕ
  pub interpolation_tick_count : ℕ
  pub interpolation_pending : Bool
  pub last_command : Fo4SceneProxyLastCommand
  pub command_sequence : ℕ
  pub last_update_teleported : Bool
  pub last_update_smoothed_position : Bool
  pub last_update_smoothed_rotation : Bool
  pub last_update_source_distance : ℕ

abbrev pub zero_fo4_scene_proxy_player_state : Fo4SceneProxyPlayerState
zero_fo4_scene_proxy_player_state = record {
  in_use = false;
  player_id = 0;
  actor_handle = 0;
  visible = false;
  despawned = false;
  last_spawn = zero_proxy_player_spawn_spec;
  last_update = zero_proxy_player_update_spec;
  presented_position = zero_vec;
  presented_rotation = zero_rot;
  target_position = zero_vec;
  target_rotation = zero_rot;
  transform_apply_count = 0;
  interpolation_tick_count = 0;
  interpolation_pending = false;
  last_command = fsp_cmd_none;
  command_sequence = 0;
  last_update_teleported = false;
  last_update_smoothed_position = false;
  last_update_smoothed_rotation = false;
  last_update_source_distance = 0;
}

pub record Fo4SceneProxyInterpolationConfig : Type 0 where
  pub enabled : Bool
  pub position_alpha : ℕ
  pub rotation_alpha : ℕ

abbrev pub zero_fo4_scene_proxy_interpolation_config : Fo4SceneProxyInterpolationConfig
zero_fo4_scene_proxy_interpolation_config = record {
  enabled = false;
  position_alpha = 0;
  rotation_alpha = 0;
}

-- The static `g_scene`.
pub record SceneState : Type 0 where
  pub players : List Fo4SceneProxyPlayerState
  pub next_handle : ℕ
  pub spawn_count : ℕ
  pub update_count : ℕ
  pub despawn_count : ℕ
  pub total_command_sequence : ℕ
  pub interp : Fo4SceneProxyInterpolationConfig

pub record Fo4ProxyBackendPlayerState : Type 0 where
  pub in_use : Bool
  pub player_id : ℕ
  pub spawn : ProxyPlayerSpawnSpec
  pub update : ProxyPlayerUpdateSpec
  pub despawned : Bool

abbrev pub zero_fo4_proxy_backend_player_state : Fo4ProxyBackendPlayerState
zero_fo4_proxy_backend_player_state = record {
  in_use = false;
  player_id = 0;
  spawn = zero_proxy_player_spawn_spec;
  update = zero_proxy_player_update_spec;
  despawned = false;
}

-- The static `g_stub`.
pub record StubState : Type 0 where
  pub players : List Fo4ProxyBackendPlayerState
  pub spawn_count : ℕ
  pub update_count : ℕ
  pub despawn_count : ℕ

-- The tables of remote players, with the scene behind them.
pub record ProxyWorld : Type 0 where
  pub runtime : ProxyRuntime
  pub driver : FpadState
  pub contract : Fo4ProxyActorSpawnContractState
  pub live : Fo4ProxyActorLiveCandidateState
  pub scene : SceneState
  pub stub : StubState

instance unfoldable pub driver_keyed : Keyed Fo4ProxyActorState
driver_keyed = record { in_use = λ s. s.in_use; key = λ s. s.player_id }

instance unfoldable pub scene_keyed : Keyed Fo4SceneProxyPlayerState
scene_keyed = record { in_use = λ s. s.in_use; key = λ s. s.player_id }

instance unfoldable pub stub_keyed : Keyed Fo4ProxyBackendPlayerState
stub_keyed = record { in_use = λ s. s.in_use; key = λ s. s.player_id }

-- A call that writes the statics and returns whether it went through.
abbrev pub Act : Type 0
Act = ProxyWorld → Bool × ProxyWorld

-- `if (!a) return false;`, then what follows.
infixl 5 ◌then_act◌
unfoldable pub ◌then_act◌ : Act → Act → Act
(a then_act b) w = let (ok, w') = a w in elim ok [ true ↦ b w' | false ↦ (false, w') ]

abbrev pub refuse : Act
refuse w = (false, w)

abbrev pub effect : (ProxyWorld → ProxyWorld) → Act
effect f w = (true, f w)

abbrev pub on_runtime : (ProxyRuntime → Bool × ProxyRuntime) → Act
on_runtime f w = let (ok, rt) = f w.runtime in (ok, record w { runtime = rt })
