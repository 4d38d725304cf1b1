-- ===== src/Client/Observer/Provider.antt =====
-- plugin/src/local_player_observer_provider.c: the live provider, which keeps the last samples of the
-- player hook in a ring of eight, and a provider that something else installs.
pub mod Ring
pub mod Latest
use f4mp.Base.{
  ℕ, ◌+◌, ◌-◌, ◌%◌, ◌^◌, Bool, true, false, not, ◌||◌, Option, none, some, ◌==◌, ltb, if◌then◌else◌,
}
use f4mp.Client.Scene.Driver.{next32}
use f4mp.Client.Movement.{LocalPlayerObservedState, zero_observed}
use f4mp.Client.Observer.Adapter.{
  PlayerHostEvent, RejectReason, reject_none, LiveSample, LiveAdapterStats, clf4_pla_reset,
  clf4_pla_normalize,
}

abbrev pub max_queue : ℕ
max_queue = 8

-- The array `queue` is a function of the index.
pub record LiveProviderState : Type 0 where
  pub installed : Bool
  pub submit_count : ℕ
  pub capture_count : ℕ
  pub queue_count : ℕ
  pub queue_head : ℕ
  pub queue_tail : ℕ
  pub queue_high_watermark : ℕ
  pub dropped_sample_count : ℕ
  pub live_accept_count : ℕ
  pub live_reject_count : ℕ
  pub last_observed_tick : ℕ
  pub last_accepted_sequence : ℕ
  pub last_source_kind : ℕ
  pub last_used_default_player_id : Bool
  pub last_reject_reason : RejectReason
  pub has_state : Bool
  pub last_state : LocalPlayerObservedState
  pub queue : ℕ → LocalPlayerObservedState

unfoldable pub zero_live_provider : LiveProviderState
zero_live_provider = record {
  installed = false;
  submit_count = 0;
  capture_count = 0;
  queue_count = 0;
  queue_head = 0;
  queue_tail = 0;
  queue_high_watermark = 0;
  dropped_sample_count = 0;
  live_accept_count = 0;
  live_reject_count = 0;
  last_observed_tick = 0;
  last_accepted_sequence = 0;
  last_source_kind = 0;
  last_used_default_player_id = false;
  last_reject_reason = reject_none;
  has_state = false;
  last_state = zero_observed;
  queue = λ _. zero_observed;
}

-- The live provider with the statistics of its adapter.
pub record Live : Type 0 where
  pub provider : LiveProviderState
  pub adapter : LiveAdapterStats

-- `queue[i] = v`
abbrev pub write_at {ℓ} : {A : Type ℓ} → ℕ → A → (ℕ → A) → ℕ → A
write_at i v q j = if j == i then v else q j

-- A full ring gives up its oldest sample.
unfoldable pub make_room : LiveProviderState → LiveProviderState
make_room g =
    if g.queue_count == max_queue
    then record g {
      queue_head = (g.queue_head + 1) % max_queue;
      queue_count = g.queue_count - 1;
      dropped_sample_count = next32 g.dropped_sample_count;
    }
    else g

unfoldable pub live_queue_push : LocalPlayerObservedState → LiveProviderState → LiveProviderState
live_queue_push state g =
    let g' = make_room g in
    record g' {
      queue = write_at g'.queue_tail state g'.queue;
      queue_tail = (g'.queue_tail + 1) % max_queue;
      queue_count = g'.queue_count + 1;
      queue_high_watermark =
          if ltb g'.queue_high_watermark (g'.queue_count + 1)
          then g'.queue_count + 1
          else g'.queue_high_watermark;
    }

unfoldable pub live_queue_peek_latest : LiveProviderState → Option LocalPlayerObservedState
live_queue_peek_latest g =
    if g.queue_count == 0 then none else some (g.queue ((g.queue_tail + max_queue - 1) % max_queue))

-- What the capture returns is kept, as a valid state.
unfoldable pub hand_out :
    LocalPlayerObservedState
    → LiveProviderState
    → Option LocalPlayerObservedState × LiveProviderState
hand_out state g =
    let out : LocalPlayerObservedState = record state { valid = true } in
    (
      some out,
      record g { last_state = out; has_state = true; capture_count = next32 g.capture_count },
    )

unfoldable pub live_provider_capture :
    LiveProviderState → Option LocalPlayerObservedState × LiveProviderState
live_provider_capture g = if not g.installed then (none, g) else elim (live_queue_peek_latest g) [
  | some state ↦ hand_out state g
  | none ↦ if not g.has_state then (none, g) else hand_out g.last_state g
]

unfoldable pub lpo_live_provider_install : ℕ → Live
lpo_live_provider_install fallback_player_id = record {
  provider = record zero_live_provider { installed = true };
  adapter = clf4_pla_reset fallback_player_id;
}

unfoldable pub lpo_live_provider_uninstall : Live
lpo_live_provider_uninstall = record { provider = zero_live_provider; adapter = clf4_pla_reset 0 }

-- The counters that are copied from the adapter.
abbrev pub copy_stats : LiveAdapterStats → LiveProviderState → LiveProviderState
copy_stats a g = record g {
  live_accept_count = a.accept_count;
  live_reject_count = a.reject_count;
  last_reject_reason = a.last_reject_reason;
}

-- A sample is queued, and kept as the last.
unfoldable pub take_sample : LiveSample → LiveProviderState → LiveProviderState
take_sample sample g =
    let g' = live_queue_push sample.state g in
    record g' {
      submit_count = next32 g'.submit_count;
      has_state = true;
      last_state = sample.state;
      last_observed_tick = sample.observed_tick;
      last_accepted_sequence = sample.accepted_sequence;
      last_source_kind = sample.source_kind;
      last_used_default_player_id = sample.used_default_player_id;
    }

unfoldable pub lpo_live_provider_submit : PlayerHostEvent → Live → Bool × Live
lpo_live_provider_submit ev l =
    let (sample?, a) = clf4_pla_normalize ev l.adapter in
    if not l.provider.installed then (false, l) else elim sample? [
      | none ↦ (false, record { provider = copy_stats a l.provider; adapter = a })
      | some sample ↦
          (true, record { provider = copy_stats a (take_sample sample l.provider); adapter = a })
    ]
