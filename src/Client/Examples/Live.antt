-- ===== src/Client/Examples/Live.antt =====
-- A live client whose player walks, and what the hook reports of it.
use f4mp.Base.{ℕ, ◌+◌, ◌≡◌, refl, true, Option, none, some, List, [], ◌∷◌, arith}
use f4mp.Service.Examples.{whole}
use f4mp.Service.Zero.{zero_vec, zero_rot, zero_relay_stats}
use f4mp.Service.Relay.Order.{accepted}
use f4mp.Client.Movement.{LocalPlayerObservedState, msb_init, zero_observed}
use f4mp.Client.Observer.{Observer, zero_observer_stats}
use f4mp.Client.Observer.Adapter.{PlayerHostEvent}
use f4mp.Client.Observer.Provider.{lpo_live_provider_install, live_provider_capture}
use f4mp.Client.Observer.Provider.Ring.{ring, latest, last_of}
use f4mp.Client.Observer.Provider.Latest.{
  Use, report, ask, use_provider, good_states, use_provider-latest,
}
use f4mp.Client.Dispatch.{Dispatcher, hdr_init}
use f4mp.Client.Dispatch.Told.{HostEvent, player_event, dialogue_event, told_all}
use f4mp.Client.Dispatch.Counts.{total, Grows, dispatch_all, dispatch_all-counted}
use f4mp.Client.Bridge.{LiveClient, mlcb_init}
use f4mp.Client.Bridge.Ticks.{tick_states, accepted-mlcb_tick}
use f4mp.Client.Examples.{silence, link}

abbrev standing : PlayerHostEvent
standing = record {
  player_id = 0;
  position = zero_vec;
  rotation = zero_rot;
  velocity = zero_vec;
  stance = 0;
  anim_state = 0;
  equipped_form_id = 0;
}

-- A good event, a stance that does not exist, and an infinite position.
abbrev uses : List Use
uses =
    report standing
    ∷ ask
    ∷ report (record standing { stance = 8 })
    ∷ report (record standing { position = record zero_vec { x = 0x7f80_0000 } })
    ∷ []

uses_good : good_states 3 uses ≡ record zero_observed { valid = true; player_id = 3 } ∷ []
unfolding good_states f4mp.Client.Observer.Provider.Latest.is_good
    f4mp.Client.Observer.Adapter.vec3_finite f4mp.Client.Observer.Adapter.rot3_finite
    f4mp.Client.Observer.Adapter.resolved_player_id f4mp.Client.Observer.Adapter.observed_state
uses_good = refl

use_provider-latest_example :
    (ring (use_provider uses (lpo_live_provider_install 3)).provider
      ≡ latest 8 (good_states 3 uses))
    × ((live_provider_capture (use_provider uses (lpo_live_provider_install 3)).provider).0
        ≡ last_of (good_states 3 uses))
use_provider-latest_example = use_provider-latest 3 uses

-- The capture of another provider: the player walks on.
abbrev walk : ℕ → Option LocalPlayerObservedState × ℕ
walk n = (some (record zero_observed { player_id = 1; anim_state = n }), n + 1)

abbrev observer : Observer ℕ
observer = record {
  state = zero_observed;
  local_player_id = 1;
  user = some 0;
  live = lpo_live_provider_install 1;
  stats = zero_observer_stats;
}

abbrev walker : LiveClient (List (List ℕ)) ℕ
walker = record {
  bridge = record mlcb_init { joined = true };
  link = link;
  observer = observer;
  sync = msb_init none;
}

accepted-mlcb_tick_example :
    accepted zero_relay_stats (tick_states silence whole walk 5 walker)
    ≡ tick_states silence whole walk 5 walker
unfolding msb_init
accepted-mlcb_tick_example =
    accepted-mlcb_tick silence whole walk 5 walker zero_relay_stats (omega arith) (omega arith)
      (omega arith) (omega arith)

-- The plugin of the link with its counters, which know nothing yet.
abbrev dispatcher : Dispatcher
dispatcher = record { stats = hdr_init; last_player_state = none; plugin = link.plugin }

-- Player 0, which stands for nobody, and a dialogue that opens.
abbrev events : List HostEvent
events =
    player_event standing
    ∷ dialogue_event
        (record { dialogue_id = 1; npc_actor_net_id = 2; speaker_actor_net_id = 2; text = [] })
    ∷ []

-- The first succeeds, for there is nothing to do for player 0.
events_told : (told_all whole events link.plugin).0 ≡ true ∷ true ∷ []
unfolding told_all f4mp.Client.Apply.pa_apply_player_state f4mp.Client.Apply.pa_apply_dialogue_open
    f4mp.Client.Manager.rpm_apply_remote_player_state
events_told = refl

dispatch_all-counted_example :
    ((dispatch_all whole events dispatcher).0 ≡ (told_all whole events link.plugin).0)
    × ((dispatch_all whole events dispatcher).1.plugin ≡ (told_all whole events link.plugin).1)
    × Grows events
        (dispatch_all whole events dispatcher).0
        hdr_init
        (dispatch_all whole events dispatcher).1.stats
unfolding hdr_init total
dispatch_all-counted_example = dispatch_all-counted whole events dispatcher (omega arith)
