-- ===== src/Client/Scene/Contract.antt =====
-- plugin/src/fo4_proxy_actor_spawn_contract.c and fo4_proxy_actor_live_candidate.c: which actor is made
-- for a remote player, and the commands that the driver gets for it.
use f4mp.Base.{ℕ, Bool, true, false, not, ◌&&◌, Option, none, some, List, ◌==◌, if◌then◌else◌}
use f4mp.Messages.Player.{MsgPlayerState}
use f4mp.Service.Dialogue.{codes}
use f4mp.Client.Records.{ProxyPlayerSpawnSpec}
use f4mp.Client.Scene.Records.{
  Fo4ProxyActorCreateSpec, Fo4ProxyActorMoveSpec, Fo4ProxyActorRotateSpec, Fo4ProxyActorState,
  Fo4ProxyActorSpawnContractConfig, Fo4ProxyActorSpawnContractState,
  Fo4ProxyActorLiveCandidateConfig, Fo4ProxyActorLiveCandidateState, ProxyWorld, Act, refuse,
  effect, ◌then_act◌, zero_fo4_proxy_actor_create_spec, zero_fo4_proxy_actor_spawn_contract_state,
  zero_fo4_proxy_actor_live_candidate_state,
}
use f4mp.Client.Scene.Driver.{
  fpad_create, fpad_move, fpad_rotate, fpad_despawn, fpad_get_state, next32,
}

unfoldable pub fpasc_reset : Fo4ProxyActorSpawnContractState
fpasc_reset = zero_fo4_proxy_actor_spawn_contract_state

abbrev default_contract : Fo4ProxyActorSpawnContractConfig
default_contract = record {
  local_player_id = 0;
  default_proxy_base_form_id = 0x7777;
  suppress_self_spawn = true;
  require_base_form_id = true;
}

-- `if (config) effective = *config;`
abbrev config_or : {A : Type 0} → A → Option A → A
config_or default none = default
config_or default (some config) = config

unfoldable pub fpasc_configure :
    Option Fo4ProxyActorSpawnContractConfig
    → Fo4ProxyActorSpawnContractState
    → Fo4ProxyActorSpawnContractState
fpasc_configure config c = record c {
  config = config_or default_contract config;
  configured = true;
}

-- `if (!g_contract.configured) fpasc_configure(&cfg);`
abbrev ensure_configured : Fo4ProxyActorSpawnContractState → Fo4ProxyActorSpawnContractState
ensure_configured c = if c.configured then c else fpasc_configure none c

-- The specification for the driver, if the contract admits the spawn.
unfoldable pub plan :
    ProxyPlayerSpawnSpec
    → Fo4ProxyActorSpawnContractState
    → Option Fo4ProxyActorCreateSpec × Fo4ProxyActorSpawnContractState
plan spec c =
    if spec.player_id == 0
    then (none, rejected)
    else if config.suppress_self_spawn
        && not (config.local_player_id == 0)
        && spec.player_id == config.local_player_id
    then (
      none,
      record rejected { last_suppressed_self_spawn = true; last_player_id = spec.player_id },
    )
    else if config.require_base_form_id && base_form_id == 0
    then (
      none,
      record rejected {
        last_player_id = spec.player_id;
        last_used_default_base_form = false;
        last_suppressed_self_spawn = false;
      },
    )
    else (
      some create_spec,
      record c {
        plan_count = next32 c.plan_count;
        last_player_id = spec.player_id;
        last_used_default_base_form = spec.proxy_base_form_id == 0 && not (base_form_id == 0);
        last_suppressed_self_spawn = false;
        last_create_spec = create_spec;
      },
    )
  where
    open c use {config}

    rejected : Fo4ProxyActorSpawnContractState
    rejected = record c { reject_count = next32 c.reject_count }

    base_form_id : ℕ
    base_form_id =
        if spec.proxy_base_form_id == 0
        then config.default_proxy_base_form_id
        else spec.proxy_base_form_id

    create_spec : Fo4ProxyActorCreateSpec
    create_spec = record zero_fo4_proxy_actor_create_spec {
      player_id = spec.player_id;
      proxy_net_id = spec.proxy_net_id;
      proxy_base_form_id = base_form_id;
      position = spec.position;
      rotation = spec.rotation;
      equipped_form_id = spec.equipped_form_id;
    }

unfoldable pub fpasc_build_create_spec :
    ProxyPlayerSpawnSpec → ProxyWorld → Option Fo4ProxyActorCreateSpec × ProxyWorld
fpasc_build_create_spec spec w =
    let (planned, c) = plan spec (ensure_configured w.contract) in
    (planned, record w { contract = c })

-- The contract counts the spawn and keeps what the driver was given.
abbrev spawned : Fo4ProxyActorCreateSpec → ProxyWorld → ProxyWorld
spawned create_spec w = record w {
  contract = record contract {
    spawn_count = next32 contract.spawn_count;
    last_create_spec = create_spec;
  };
}
  where
    open w use {contract}

-- What follows a plan: the driver creates the actor with the handle.
unfoldable pub spawn_planned : ℕ → Option Fo4ProxyActorCreateSpec → Act
spawn_planned actor_handle none = refuse
spawn_planned actor_handle (some planned) =
    fpad_create create_spec then_act effect (spawned create_spec)
  where
    create_spec : Fo4ProxyActorCreateSpec
    create_spec = record planned { actor_handle = actor_handle }

unfoldable pub fpasc_spawn_via_driver : ProxyPlayerSpawnSpec → ℕ → Act
fpasc_spawn_via_driver spec actor_handle w =
    let (planned, w') = fpasc_build_create_spec spec w in spawn_planned actor_handle planned w'

unfoldable pub fpalc_reset : Fo4ProxyActorLiveCandidateState
fpalc_reset = zero_fo4_proxy_actor_live_candidate_state

-- `if (!active.name) active.name = "...";`
abbrev name_or : List ℕ → Option (List ℕ) → Option (List ℕ)
name_or default none = some default
name_or default (some name) = some name

abbrev default_config : Fo4ProxyActorLiveCandidateConfig
default_config = record {
  local_player_id = 0;
  default_proxy_base_form_id = 0;
  suppress_self_spawn = false;
  require_base_form_id = false;
  actor_class_name = some (codes "Actor");
  create_api_symbol = some (codes "TESObjectREFR::Create");
  move_api_symbol = some (codes "TESObjectREFR::SetPosition");
  rotate_api_symbol = some (codes "TESObjectREFR::SetRotation");
  despawn_api_symbol = some (codes "TESObjectREFR::Disable");
}

unfoldable pub fpalc_configure : Option Fo4ProxyActorLiveCandidateConfig → ProxyWorld → ProxyWorld
fpalc_configure config w = record w {
  contract =
      fpasc_configure
        (some (record {
          local_player_id = active.local_player_id;
          default_proxy_base_form_id = active.default_proxy_base_form_id;
          suppress_self_spawn = active.suppress_self_spawn;
          require_base_form_id = active.require_base_form_id;
        }))
        w.contract;
  live = record fpalc_reset {
    configured = true;
    enabled = true;
    actor_class_name = name_or (codes "Actor") active.actor_class_name;
    create_api_symbol = name_or (codes "TESObjectREFR::Create") active.create_api_symbol;
    move_api_symbol = name_or (codes "TESObjectREFR::SetPosition") active.move_api_symbol;
    rotate_api_symbol = name_or (codes "TESObjectREFR::SetRotation") active.rotate_api_symbol;
    despawn_api_symbol = name_or (codes "TESObjectREFR::Disable") active.despawn_api_symbol;
  };
}
  where
    active : Fo4ProxyActorLiveCandidateConfig
    active = config_or default_config config

unfoldable pub fpalc_enabled : ProxyWorld → Bool
fpalc_enabled w = w.live.enabled

-- `driver_state ? driver_state->actor_handle : other`, and the form the same way.
abbrev handle_or : ℕ → Option Fo4ProxyActorState → ℕ
handle_or other none = other
handle_or other (some s) = s.actor_handle

abbrev form_or_zero : Option Fo4ProxyActorState → ℕ
form_or_zero none = 0
form_or_zero (some s) = s.proxy_base_form_id

abbrev exists : Option Fo4ProxyActorState → Bool
exists none = false
exists (some s) = true

-- What the candidate keeps of the last command: the player, and what the driver holds for it.
unfoldable pub note_last : ℕ → ℕ → ProxyWorld → ProxyWorld
note_last player_id handle w = record w {
  live = record live {
    last_player_id = player_id;
    last_actor_handle = handle_or handle (fpad_get_state w player_id);
    last_proxy_base_form_id = form_or_zero (fpad_get_state w player_id);
    has_driver_state = exists (fpad_get_state w player_id);
  };
}
  where
    open w use {live}

abbrev pub on_live :
    (Fo4ProxyActorLiveCandidateState → Fo4ProxyActorLiveCandidateState) → ProxyWorld → ProxyWorld
on_live f w = record w { live = f w.live }

-- `if (!g_state.enabled) return false;`
abbrev pub when_enabled : Act → Act
when_enabled a w = if w.live.enabled then a w else (false, w)

unfoldable pub fpalc_spawn_via_driver : ProxyPlayerSpawnSpec → ℕ → Act
fpalc_spawn_via_driver spec actor_handle = when_enabled (
    fpasc_spawn_via_driver spec actor_handle
    then_act effect (on_live (λ l. record l { spawn_count = next32 l.spawn_count }))
    then_act effect (note_last spec.player_id actor_handle))

abbrev pub move_spec : MsgPlayerState → ℕ → Fo4ProxyActorMoveSpec
move_spec msg actor_handle = record {
  player_id = msg.player_id;
  actor_handle = actor_handle;
  position = msg.position;
  velocity = msg.velocity;
  stance = msg.stance;
  anim_state = msg.anim_state;
  equipped_form_id = msg.equipped_form_id;
}

abbrev pub rotate_spec : MsgPlayerState → ℕ → Fo4ProxyActorRotateSpec
rotate_spec msg actor_handle = record {
  player_id = msg.player_id;
  actor_handle = actor_handle;
  rotation = msg.rotation;
}

unfoldable pub fpalc_apply_presented_state : MsgPlayerState → ℕ → Act
fpalc_apply_presented_state msg actor_handle = when_enabled (
    (if msg.player_id == 0 then refuse else fpad_move (move_spec msg actor_handle))
    then_act fpad_rotate (rotate_spec msg actor_handle)
    then_act effect (
        on_live (λ l. record l {
          move_count = next32 l.move_count;
          rotate_count = next32 l.rotate_count;
        }))
    then_act effect (note_last msg.player_id actor_handle))

unfoldable pub fpalc_despawn : ℕ → Act
fpalc_despawn player_id = when_enabled (
    (if player_id == 0 then refuse else fpad_despawn player_id)
    then_act effect (on_live (λ l. record l { despawn_count = next32 l.despawn_count }))
    then_act effect (note_last player_id 0))
