-- ===== src/Client/Observer.antt =====
-- plugin/src/local_player_observer.c and local_player_observer_stats.c: what is known of the local
-- player. The state of an installed provider and its capture function are parameters.
pub mod Adapter
pub mod Provider
use f4mp.Base.{ℕ, Bool, true, false, not, ◌||◌, Option, none, some, ◌==◌, if◌then◌else◌}
use f4mp.Service.Slots.{is_some}
use f4mp.Client.Scene.Driver.{next32}
use f4mp.Client.Movement.{LocalPlayerObservedState, zero_observed}
use f4mp.Client.Observer.Provider.{Live, live_provider_capture}

pub record LocalPlayerObserverStats : Type 0 where
  pub capture_attempts : ℕ
  pub provider_hits : ℕ
  pub synthetic_hits : ℕ
  pub capture_failures : ℕ
  pub provider_installed : Bool
  pub last_capture_from_provider : Bool

-- The statics: `user` is `none` while no provider with a capture function is installed.
pub record Observer (User : Type 0) : Type 0 where
  pub state : LocalPlayerObservedState
  pub local_player_id : ℕ
  pub user : Option User
  pub live : Live
  pub stats : LocalPlayerObserverStats

abbrev pub zero_observer_stats : LocalPlayerObserverStats
zero_observer_stats = record {
  capture_attempts = 0;
  provider_hits = 0;
  synthetic_hits = 0;
  capture_failures = 0;
  provider_installed = false;
  last_capture_from_provider = false;
}

-- `if (out_state->player_id == 0) out_state->player_id = g_local_player_id;`, on a valid state.
abbrev pub completed : ℕ → LocalPlayerObservedState → LocalPlayerObservedState
completed local_player_id s = record s {
  valid = true;
  player_id = if s.player_id == 0 then local_player_id else s.player_id;
}

module _ {User : Type 0} where
  unfoldable pub lpo_has_provider : Observer User → Bool
  lpo_has_provider o = is_some o.user || o.live.provider.installed

  -- `sync_provider_installed_stat`
  unfoldable pub sync_provider_installed_stat : Observer User → Observer User
  sync_provider_installed_stat o = record o {
    stats = record stats { provider_installed = lpo_has_provider o };
  }
    where
      open o use {stats}

  unfoldable pub lpo_init : ℕ → Observer User → Observer User
  lpo_init local_player_id o = sync_provider_installed_stat (record o {
    state = record zero_observed { player_id = local_player_id };
    local_player_id = local_player_id;
    stats = zero_observer_stats;
  })

  unfoldable pub lpo_set_synthetic_state : LocalPlayerObservedState → Observer User → Observer User
  lpo_set_synthetic_state state o = record o { state = completed o.local_player_id state }

  unfoldable pub lpo_install_provider : Option User → Observer User → Observer User
  lpo_install_provider user o = sync_provider_installed_stat (record o { user = user })

  module _ (capture : User → Option LocalPlayerObservedState × User) where
    unfoldable pub lpo_provider_capture :
        Observer User → Option LocalPlayerObservedState × Observer User
    lpo_provider_capture o = elim o.user [
      | some user ↦ let (out, user') = capture user in (out, record o { user = some user' })
      | none ↦
          let (out, provider') = live_provider_capture provider in
          (out, record o { live = record live { provider = provider' } })
    ]
      where
        open o use {live}
        open live use {provider}

    -- The count of the attempt, before anything else.
    unfoldable pub attempted : Observer User → Observer User
    attempted o =
        sync_provider_installed_stat
          (record o { stats = record stats { capture_attempts = next32 capture_attempts } })
      where
        open o use {stats}
        open stats use {capture_attempts}

    -- The state that was set, where no provider has one.
    unfoldable pub synthetic : Observer User → Option LocalPlayerObservedState × Observer User
    synthetic o =
        if not o.state.valid
        then (
          none,
          record o { stats = record stats { capture_failures = next32 capture_failures } },
        )
        else (
          some o.state,
          record o {
            stats = record stats {
              synthetic_hits = next32 synthetic_hits;
              last_capture_from_provider = false;
            };
          },
        )
      where
        open o use {stats}
        open stats use {capture_failures, synthetic_hits}

    -- What a provider captured, completed.
    unfoldable pub provided :
        LocalPlayerObservedState → Observer User → Option LocalPlayerObservedState × Observer User
    provided out o = (
      some (completed o.local_player_id out),
      record o {
        stats = record stats {
          provider_hits = next32 provider_hits;
          last_capture_from_provider = true;
        };
      },
    )
      where
        open o use {stats}
        open stats use {provider_hits}

    unfoldable pub lpo_capture : Observer User → Option LocalPlayerObservedState × Observer User
    lpo_capture o =
        let (out, o') = lpo_provider_capture (attempted o) in
        if not (lpo_has_provider (attempted o))
        then synthetic (attempted o)
        else elim out [ some state ↦ provided state o' | none ↦ synthetic o' ]
