-- ===== src/Client/Startup/Ready.antt =====
-- What the self-check of plugin/src/plugin_startup_selfcheck.c says.
use f4mp.Base.{◌≡◌, ◌≢◌, refl, Bool, true, ◌&&◌, arith, if◌then◌else◌}
use f4mp.Client.Startup.{
  HookRegistry, HookReadiness, unavailable, partly_ready, all_ready, HookBringupMode, bringup_none,
  bringup_basic_sync, bringup_vanilla_mirror, hook_bringup_apply_mode, hook_bringup_apply_config,
  plugin_startup_selfcheck, state_is_installed, state_is_attempted, is_ready,
  startup_blocking_summary_for_mode, count_blocking, startup_blocking_for_family, base_readiness,
  hook_bringup_status, classify_readiness, family_required_for_mode, hook_bringup_config_for_mode,
  hook_install_registry_get_state, hook_install_registry_get_record, hook_install_registry_install,
  hook_install_registry_mark_state, hook_install_registry_reset,
}

-- The families of the core, and those that a full mirror adds.
abbrev core_installed : HookRegistry → Bool
core_installed r = state_is_installed r.player.state && state_is_installed r.workshop.state

abbrev rest_installed : HookRegistry → Bool
rest_installed r = state_is_installed r.actor.state && state_is_installed r.dialogue_quest.state

abbrev rest_attempted : HookRegistry → Bool
rest_attempted r = state_is_attempted r.actor.state && state_is_attempted r.dialogue_quest.state

-- What a mode may say: it needs its core, and a full mirror without the rest, which was tried, is partly
-- ready.
unfoldable pub verdict : HookBringupMode → HookRegistry → HookReadiness
verdict bringup_none r = unavailable
verdict bringup_basic_sync r = if core_installed r then all_ready else unavailable
verdict bringup_vanilla_mirror r =
    if core_installed r && rest_attempted r
    then if rest_installed r then all_ready else partly_ready
    else unavailable

-- The self-check is ready for a basic sync exactly if the hooks into the player and the workshop are
-- installed, and unavailable otherwise. For a full mirror it is unavailable if one of these is not
-- installed or one of the others was never tried; otherwise it is ready if the others are installed as
-- well, and partly ready if not. Without a mode it is unavailable.
pub plugin_startup_selfcheck-verdict :
    (mode : HookBringupMode) (r : HookRegistry)
    → ((plugin_startup_selfcheck mode r).readiness ≡ verdict mode r)
      × ((plugin_startup_selfcheck mode r).ready ≡ is_ready (verdict mode r))
unfolding plugin_startup_selfcheck startup_blocking_summary_for_mode count_blocking
    startup_blocking_for_family base_readiness hook_bringup_status classify_readiness
    family_required_for_mode hook_bringup_config_for_mode hook_install_registry_get_state
    hook_install_registry_get_record verdict
plugin_startup_selfcheck-verdict bringup_none r = ground arith
plugin_startup_selfcheck-verdict bringup_basic_sync r = ground arith
plugin_startup_selfcheck-verdict bringup_vanilla_mirror r = ground arith

-- Once a mode other than none is applied, nothing blocks it, and the self-check is ready.
pub plugin_startup_selfcheck-hook_bringup_apply_mode :
    (mode : HookBringupMode)
    → mode ≢ bringup_none
    → let report = plugin_startup_selfcheck mode (hook_bringup_apply_mode mode) in
      (report.ready ≡ true) × (report.fatal_block_count ≡ 0) × (report.degradable_block_count ≡ 0)
unfolding plugin_startup_selfcheck startup_blocking_summary_for_mode count_blocking
    startup_blocking_for_family base_readiness hook_bringup_status classify_readiness
    family_required_for_mode hook_bringup_config_for_mode hook_install_registry_get_state
    hook_install_registry_get_record hook_bringup_apply_mode hook_bringup_apply_config
    hook_install_registry_install hook_install_registry_mark_state hook_install_registry_reset
plugin_startup_selfcheck-hook_bringup_apply_mode bringup_none on = ground arith
plugin_startup_selfcheck-hook_bringup_apply_mode bringup_basic_sync on = (refl, refl, refl)
plugin_startup_selfcheck-hook_bringup_apply_mode bringup_vanilla_mirror on = (refl, refl, refl)
