-- ===== src/Client/Examples/Starting.antt =====
-- A start where the player and the workshop are hooked, and one of the others failed.
use f4mp.Base.{◌≡◌, refl, true, arith}
use f4mp.Client.Startup.{
  HookRegistry, bringup_basic_sync, bringup_vanilla_mirror, installed, failed_install,
  partial_install, err_none, err_address_missing, partly_ready, is_ready, hook_bringup_apply_mode,
  plugin_startup_selfcheck,
}
use f4mp.Client.Startup.Ready.{
  verdict, plugin_startup_selfcheck-verdict, plugin_startup_selfcheck-hook_bringup_apply_mode,
}

abbrev half_hooked : HookRegistry
half_hooked = record {
  player = record { state = installed; error = err_none };
  actor = record { state = failed_install; error = err_address_missing };
  workshop = record { state = installed; error = err_none };
  dialogue_quest = record { state = partial_install; error = err_none };
}

verdict-half_hooked : verdict bringup_vanilla_mirror half_hooked ≡ partly_ready
unfolding verdict
verdict-half_hooked = refl

plugin_startup_selfcheck-verdict_example :
    ((plugin_startup_selfcheck bringup_vanilla_mirror half_hooked).readiness
      ≡ verdict bringup_vanilla_mirror half_hooked)
    × ((plugin_startup_selfcheck bringup_vanilla_mirror half_hooked).ready
        ≡ is_ready (verdict bringup_vanilla_mirror half_hooked))
plugin_startup_selfcheck-verdict_example =
    plugin_startup_selfcheck-verdict bringup_vanilla_mirror half_hooked

plugin_startup_selfcheck-hook_bringup_apply_mode_example :
    let report =
      plugin_startup_selfcheck bringup_basic_sync (hook_bringup_apply_mode bringup_basic_sync) in
    (report.ready ≡ true) × (report.fatal_block_count ≡ 0) × (report.degradable_block_count ≡ 0)
plugin_startup_selfcheck-hook_bringup_apply_mode_example =
    plugin_startup_selfcheck-hook_bringup_apply_mode bringup_basic_sync (λ e. ground arith)
