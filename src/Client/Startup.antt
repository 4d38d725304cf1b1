-- ===== src/Client/Startup.antt =====
-- Which hooks into the game are installed, and whether the plugin may start with them:
-- plugin/src/commonlibf4_hook_install_registry.cpp, hook_bringup_config.c, hook_bringup_policy.c,
-- startup_blocking_policy.c and plugin_startup_selfcheck.c.
pub mod Ready
use f4mp.Base.{ℕ, ◌+◌, Bool, true, false, not, ◌&&◌, ◌||◌, List, [], ◌∷◌, ◌==◌, ltb, if◌then◌else◌}

-- The families below HOOK_FAMILY_COUNT; there is no other.
pub data HookFamily : Type 0 where
  family_player family_actor family_workshop family_dialogue_quest : HookFamily

pub data HookInstallState : Type 0 where
  not_attempted installed failed_install partial_install : HookInstallState

pub data HookInstallError : Type 0 where
  err_none err_unsupported_runtime err_address_missing err_patch_rejected : HookInstallError
  err_dependency_missing err_unknown : HookInstallError

pub record HookInstallRecord : Type 0 where
  pub state : HookInstallState
  pub error : HookInstallError

-- `g_records[f]`
pub record HookRegistry : Type 0 where
  pub player : HookInstallRecord
  pub actor : HookInstallRecord
  pub workshop : HookInstallRecord
  pub dialogue_quest : HookInstallRecord

abbrev pub no_attempt : HookInstallRecord
no_attempt = record { state = not_attempted; error = err_none }

unfoldable pub hook_install_registry_reset : HookRegistry
hook_install_registry_reset = record {
  player = no_attempt;
  actor = no_attempt;
  workshop = no_attempt;
  dialogue_quest = no_attempt;
}

unfoldable pub hook_install_registry_get_record : HookRegistry → HookFamily → HookInstallRecord
hook_install_registry_get_record r family_player = r.player
hook_install_registry_get_record r family_actor = r.actor
hook_install_registry_get_record r family_workshop = r.workshop
hook_install_registry_get_record r family_dialogue_quest = r.dialogue_quest

unfoldable pub hook_install_registry_get_state : HookRegistry → HookFamily → HookInstallState
hook_install_registry_get_state r family = (hook_install_registry_get_record r family).state

unfoldable pub hook_install_registry_mark_state :
    HookFamily → HookInstallState → HookInstallError → HookRegistry → HookRegistry
hook_install_registry_mark_state family_player state error r = record r {
  player = record { state = state; error = error };
}
hook_install_registry_mark_state family_actor state error r = record r {
  actor = record { state = state; error = error };
}
hook_install_registry_mark_state family_workshop state error r = record r {
  workshop = record { state = state; error = error };
}
hook_install_registry_mark_state family_dialogue_quest state error r = record r {
  dialogue_quest = record { state = state; error = error };
}

unfoldable pub hook_install_registry_install : HookFamily → HookRegistry → HookRegistry
hook_install_registry_install family r =
    hook_install_registry_mark_state family installed err_none r

unfoldable pub hook_install_registry_uninstall : HookFamily → HookRegistry → HookRegistry
hook_install_registry_uninstall family r =
    hook_install_registry_mark_state family not_attempted err_none r

abbrev pub state_is_installed : HookInstallState → Bool
state_is_installed installed = true
state_is_installed _ = false

abbrev pub state_is_attempted : HookInstallState → Bool
state_is_attempted not_attempted = false
state_is_attempted _ = true

abbrev pub state_is_failed : HookInstallState → Bool
state_is_failed failed_install = true
state_is_failed _ = false

abbrev pub state_is_partial : HookInstallState → Bool
state_is_partial partial_install = true
state_is_partial _ = false

-- The loop of the four counts.
unfoldable pub count_states : (HookInstallState → Bool) → HookRegistry → ℕ
count_states test r = count r.player + (count r.actor + (count r.workshop + count r.dialogue_quest))
  where
    count : HookInstallRecord → ℕ
    count rec = if test rec.state then 1 else 0

pub data HookBringupMode : Type 0 where
  bringup_none bringup_basic_sync bringup_vanilla_mirror : HookBringupMode

pub record HookBringupConfig : Type 0 where
  pub mode : HookBringupMode
  pub enable_player : Bool
  pub enable_actor : Bool
  pub enable_workshop : Bool
  pub enable_dialogue_quest : Bool

unfoldable pub hook_bringup_config_for_mode : HookBringupMode → HookBringupConfig
hook_bringup_config_for_mode mode = elim mode [
  | bringup_basic_sync ↦ record off { enable_player = true; enable_workshop = true }
  | bringup_vanilla_mirror ↦ record off {
    enable_player = true;
    enable_actor = true;
    enable_workshop = true;
    enable_dialogue_quest = true;
  }
  | bringup_none ↦ off
]
  where
    off : HookBringupConfig
    off = record {
      mode = mode;
      enable_player = false;
      enable_actor = false;
      enable_workshop = false;
      enable_dialogue_quest = false;
    }

abbrev install_if : Bool → HookFamily → HookRegistry → HookRegistry
install_if enabled family r = if enabled then hook_install_registry_install family r else r

-- The registry is reset, whatever it was.
unfoldable pub hook_bringup_apply_config : HookBringupConfig → HookRegistry
hook_bringup_apply_config cfg = install_if cfg.enable_dialogue_quest family_dialogue_quest (
    install_if cfg.enable_workshop family_workshop (
      install_if cfg.enable_actor family_actor
        (install_if cfg.enable_player family_player hook_install_registry_reset)))

unfoldable pub hook_bringup_apply_mode : HookBringupMode → HookRegistry
hook_bringup_apply_mode mode = hook_bringup_apply_config (hook_bringup_config_for_mode mode)

pub data HookReadiness : Type 0 where
  unavailable partly_ready all_ready : HookReadiness

pub record HookBringupStatus : Type 0 where
  pub installed_count : ℕ
  pub attempted_count : ℕ
  pub failed_count : ℕ
  pub partial_count : ℕ
  pub required_count : ℕ
  pub player_ready : Bool
  pub actor_ready : Bool
  pub workshop_ready : Bool
  pub dialogue_quest_ready : Bool
  pub core_runtime_ready : Bool
  pub basic_sync_readiness : HookReadiness
  pub vanilla_mirror_readiness : HookReadiness

abbrev pub family_installed : HookRegistry → HookFamily → Bool
family_installed r family = state_is_installed (hook_install_registry_get_state r family)

abbrev family_attempted_but_not_ready : HookRegistry → HookFamily → Bool
family_attempted_but_not_ready r family = state_is_failed state || state_is_partial state
  where
    state : HookInstallState
    state = hook_install_registry_get_state r family

-- The readiness of four families a, b, c and d, of which the last two may be unused.
unfoldable pub classify_readiness :
    Bool → Bool → Bool → Bool → Bool → Bool → Bool → Bool → Bool → Bool → HookReadiness
classify_readiness a b c d aa bb cc dd use_c use_d =
    if a && b && (not use_c || c) && (not use_d || d)
    then all_ready
    else if a || b || c || d || aa || bb || cc || dd
    then partly_ready
    else unavailable

unfoldable pub hook_bringup_status : HookRegistry → HookBringupStatus
hook_bringup_status r = record {
  installed_count = count_states state_is_installed r;
  attempted_count = count_states state_is_attempted r;
  failed_count = count_states state_is_failed r;
  partial_count = count_states state_is_partial r;
  required_count = 2;
  player_ready = family_installed r family_player;
  actor_ready = family_installed r family_actor;
  workshop_ready = family_installed r family_workshop;
  dialogue_quest_ready = family_installed r family_dialogue_quest;
  core_runtime_ready = family_installed r family_player && family_installed r family_workshop;
  basic_sync_readiness =
      classify_readiness (family_installed r family_player) (family_installed r family_workshop)
        false false (family_attempted_but_not_ready r family_player)
        (family_attempted_but_not_ready r family_workshop) false false false false;
  vanilla_mirror_readiness =
      classify_readiness (family_installed r family_player) (family_installed r family_actor)
        (family_installed r family_workshop) (family_installed r family_dialogue_quest)
        (family_attempted_but_not_ready r family_player)
        (family_attempted_but_not_ready r family_actor)
        (family_attempted_but_not_ready r family_workshop)
        (family_attempted_but_not_ready r family_dialogue_quest) true true;
}

pub data HookInstallBlocking : Type 0 where
  blocking_none blocking_degradable blocking_fatal : HookInstallBlocking

unfoldable pub family_required_for_mode : HookBringupMode → HookFamily → Bool
family_required_for_mode mode family = elim family [
  | family_player ↦ enable_player
  | family_actor ↦ enable_actor
  | family_workshop ↦ enable_workshop
  | family_dialogue_quest ↦ enable_dialogue_quest
]
  where
    open hook_bringup_config_for_mode mode use {
      enable_player, enable_actor, enable_workshop, enable_dialogue_quest,
    }

-- `family == HOOK_FAMILY_PLAYER || family == HOOK_FAMILY_WORKSHOP`
abbrev is_core : HookFamily → Bool
is_core family_player = true
is_core family_workshop = true
is_core _ = false

unfoldable pub startup_blocking_for_family :
    HookBringupMode → HookFamily → HookInstallState → HookInstallBlocking
startup_blocking_for_family mode family state =
    if not (family_required_for_mode mode family)
    then blocking_none
    else if state_is_installed state
    then blocking_none
    else if not (state_is_attempted state)
    then blocking_fatal
    else elim mode [
      | bringup_none ↦ blocking_none
      | _ ↦ if is_core family then blocking_fatal else blocking_degradable
    ]

pub record StartupBlockingSummary : Type 0 where
  pub fatal_count : ℕ
  pub degradable_count : ℕ
  pub fatal_blocked : Bool
  pub adjusted_readiness : HookReadiness

-- `base`, by the mode.
unfoldable pub base_readiness : HookBringupMode → HookRegistry → HookReadiness
base_readiness bringup_basic_sync r = (hook_bringup_status r).basic_sync_readiness
base_readiness bringup_vanilla_mirror r = (hook_bringup_status r).vanilla_mirror_readiness
base_readiness bringup_none r = unavailable

abbrev pub is_ready : HookReadiness → Bool
is_ready all_ready = true
is_ready _ = false

abbrev families : List HookFamily
families = family_player ∷ family_actor ∷ family_workshop ∷ family_dialogue_quest ∷ []

-- The counts of the loop over the families, fatal before degradable.
unfoldable pub count_blocking : HookBringupMode → HookRegistry → List HookFamily → ℕ × ℕ
count_blocking mode r [] = (0, 0)
count_blocking mode r (family ∷ rest) =
    let (fatal, degradable) = count_blocking mode r rest in
    elim (startup_blocking_for_family mode family (hook_install_registry_get_state r family)) [
      | blocking_none ↦ (fatal, degradable)
      | blocking_degradable ↦ (fatal, degradable + 1)
      | blocking_fatal ↦ (fatal + 1, degradable)
    ]

unfoldable pub startup_blocking_summary_for_mode :
    HookBringupMode → HookRegistry → StartupBlockingSummary
startup_blocking_summary_for_mode mode r =
    let (fatal, degradable) = count_blocking mode r families in
    let base = base_readiness mode r in
    record {
      fatal_count = fatal;
      degradable_count = degradable;
      fatal_blocked = ltb 0 fatal;
      adjusted_readiness =
          if ltb 0 fatal
          then unavailable
          else if ltb 0 degradable && is_ready base
          then partly_ready
          else base;
    }

pub record PluginStartupReport : Type 0 where
  pub requested_mode : HookBringupMode
  pub status : HookBringupStatus
  pub readiness : HookReadiness
  pub fatal_block_count : ℕ
  pub degradable_block_count : ℕ
  pub ready : Bool

unfoldable pub plugin_startup_selfcheck : HookBringupMode → HookRegistry → PluginStartupReport
plugin_startup_selfcheck mode r =
    let blocking = startup_blocking_summary_for_mode mode r in
    record {
      requested_mode = mode;
      status = hook_bringup_status r;
      readiness = blocking.adjusted_readiness;
      fatal_block_count = blocking.fatal_count;
      degradable_block_count = blocking.degradable_count;
      ready = is_ready blocking.adjusted_readiness;
    }
