-- ===== src/Client/Observer/Provider/Latest.antt =====
-- What plugin/src/local_player_observer_provider.c keeps and hands out, whatever was reported to it.
use f4mp.Base.{
  ℕ, ◌≡◌, refl, sym, ap, ◌∙◌, Bool, true, not, ◌&&◌, ◌==◌, leb, if◌then◌else◌, List, [], ◌∷◌, ◌++◌,
  subst, Option, none, some, arith, inl, inr, Option-cases, Bool-cases, All,
}
use mathlib.Core.List.{append_assoc, append-nil}
use f4mp.Service.Slots.{is_some}
use f4mp.Client.Movement.{LocalPlayerObservedState}
use f4mp.Client.Observer.Adapter.{
  PlayerHostEvent, LiveSample, LiveAdapterStats, resolved_player_id, vec3_finite, rot3_finite,
  observed_state, clf4_pla_normalize, reject_event, accept_event, clf4_pla_reset,
}
use f4mp.Client.Observer.Provider.{
  LiveProviderState, Live, take_sample, live_queue_push, live_queue_peek_latest, hand_out,
  live_provider_capture, lpo_live_provider_install, lpo_live_provider_submit, make_room,
  zero_live_provider, copy_stats,
}
use f4mp.Client.Observer.Provider.Ring.{
  ring, IsRing, latest, last_of, live_queue_push-IsRing, ring-live_queue_push,
  live_queue_peek_latest-ring, latest-latest_append, last_of-append, last_of-latest,
}

-- The hook reports an event, or the observer asks for the state.
pub data Use : Type 0 where
  report : PlayerHostEvent → Use
  ask : Use

unfoldable pub use_provider : List Use → Live → Live
use_provider [] l = l
use_provider (report ev ∷ uses) l = use_provider uses (lpo_live_provider_submit ev l).1
use_provider (ask ∷ uses) l =
    use_provider uses (record l { provider = (live_provider_capture l.provider).1 })

-- An event of a known player, all of whose numbers are finite, with a stance that exists.
unfoldable pub is_good : ℕ → PlayerHostEvent → Bool
is_good fallback ev =
    not (resolved_player_id fallback ev == 0)
    && vec3_finite ev.position
    && rot3_finite ev.rotation
    && vec3_finite ev.velocity
    && leb ev.stance 7

-- The states of the good events, in order.
unfoldable pub good_states : ℕ → List Use → List LocalPlayerObservedState
good_states fallback [] = []
good_states fallback (report ev ∷ uses) =
    let rest = good_states fallback uses in
    if is_good fallback ev then observed_state fallback ev ∷ rest else rest
good_states fallback (ask ∷ uses) = good_states fallback uses

unfoldable map_state : Option LiveSample → Option LocalPlayerObservedState
map_state none = none
map_state (some sample) = some sample.state

-- The provider after some states were taken.
record Shows (fallback : ℕ) (seen : List LocalPlayerObservedState) (l : Live) : Type 0 where
  ringed : IsRing l.provider
  installed : l.provider.installed ≡ true
  player : l.adapter.fallback_player_id ≡ fallback
  kept : ring l.provider ≡ latest 8 seen
  known : l.provider.has_state ≡ is_some (last_of seen)

install-Shows : (fallback : ℕ) → Shows fallback [] (lpo_live_provider_install fallback)
unfolding lpo_live_provider_install zero_live_provider clf4_pla_reset
install-Shows fallback = record {
  ringed = record { head = omega arith; count = omega arith; tail = omega arith };
  installed = refl;
  player = refl;
  kept = refl;
  known = refl;
}

peek-Shows :
    (fallback : ℕ) (seen : List LocalPlayerObservedState) (l : Live)
    → Shows fallback seen l
    → live_queue_peek_latest l.provider ≡ last_of seen
peek-Shows fallback seen l s =
    live_queue_peek_latest-ring l.provider s.ringed
    ∙ ap last_of s.kept
    ∙ last_of-latest 8 seen (omega arith)

-- The adapter accepts the good events, and keeps its player.
normalize-good :
    (ev : PlayerHostEvent) (a : LiveAdapterStats)
    → map_state (clf4_pla_normalize ev a).0 ≡ (
        if is_good a.fallback_player_id ev
        then some (observed_state a.fallback_player_id ev)
        else none)
unfolding clf4_pla_normalize reject_event accept_event is_good map_state
normalize-good ev a = ground arith

normalize-player :
    (ev : PlayerHostEvent) (a : LiveAdapterStats)
    → (clf4_pla_normalize ev a).1.fallback_player_id ≡ a.fallback_player_id
unfolding clf4_pla_normalize reject_event accept_event
normalize-player ev a = ground arith

push-installed :
    (state : LocalPlayerObservedState) (g : LiveProviderState)
    → (live_queue_push state g).installed ≡ g.installed
unfolding live_queue_push make_room
push-installed state g = ground arith

take_sample-Shows :
    (fallback : ℕ) (seen : List LocalPlayerObservedState) (l : Live) (sample : LiveSample)
    (a : LiveAdapterStats)
    → Shows fallback seen l
    → a.fallback_player_id ≡ fallback
    → Shows fallback
        (seen ++ (sample.state ∷ []))
        (record { provider = copy_stats a (take_sample sample l.provider); adapter = a })
unfolding take_sample
take_sample-Shows fallback seen l sample a s e =
    let pushed = live_queue_push-IsRing sample.state l.provider s.ringed in
    record {
      ringed = record { head = pushed.head; count = pushed.count; tail = pushed.tail };
      installed = push-installed sample.state l.provider ∙ s.installed;
      player = e;
      kept =
          ring-live_queue_push sample.state l.provider s.ringed
          ∙ ap (λ xs. latest 8 (xs ++ (sample.state ∷ []))) s.kept
          ∙ latest-latest_append 8 seen (sample.state ∷ []);
      known = sym (ap is_some (last_of-append seen sample.state));
    }

-- A capture hands out the newest entry of the ring.
unfoldable handed_out :
    Option LocalPlayerObservedState
    → LiveProviderState
    → Option LocalPlayerObservedState × LiveProviderState
handed_out none g = (none, g)
handed_out (some state) g = hand_out state g

live_provider_capture-newest :
    (g : LiveProviderState) (newest : Option LocalPlayerObservedState)
    → g.installed ≡ true
    → g.has_state ≡ is_some newest
    → live_queue_peek_latest g ≡ newest
    → live_provider_capture g ≡ handed_out newest g
unfolding live_provider_capture handed_out
live_provider_capture-newest g none i h e = ground (arith, i, h, e)
live_provider_capture-newest g (some state) i h e = ground (arith, i, h, e)

handed_out-Shows :
    (fallback : ℕ) (seen : List LocalPlayerObservedState) (l : Live)
    (newest : Option LocalPlayerObservedState)
    → Shows fallback seen l
    → last_of seen ≡ newest
    → Shows fallback seen (record l { provider = (handed_out newest l.provider).1 })
unfolding handed_out hand_out
handed_out-Shows fallback seen l none s e = s
handed_out-Shows fallback seen l (some state) s e = record {
  ringed = record { head = s.ringed.head; count = s.ringed.count; tail = s.ringed.tail };
  installed = s.installed;
  player = s.player;
  kept = s.kept;
  known = sym (ap is_some e);
}

capture-handed_out :
    (fallback : ℕ) (seen : List LocalPlayerObservedState) (l : Live)
    → Shows fallback seen l
    → live_provider_capture l.provider ≡ handed_out (last_of seen) l.provider
capture-handed_out fallback seen l s =
    live_provider_capture-newest l.provider (last_of seen) s.installed s.known
      (peek-Shows fallback seen l s)

capture-Shows :
    (fallback : ℕ) (seen : List LocalPlayerObservedState) (l : Live)
    → Shows fallback seen l
    → Shows fallback seen (record l { provider = (live_provider_capture l.provider).1 })
capture-Shows fallback seen l s =
    subst (λ r. Shows fallback seen (record l { provider = r.1 }))
      (sym (capture-handed_out fallback seen l s))
      (handed_out-Shows fallback seen l (last_of seen) s refl)

-- What a report does, by what the adapter makes of it.
unfoldable submitted : Option LiveSample → LiveAdapterStats → Live → Live
submitted none a l = record { provider = copy_stats a l.provider; adapter = a }
submitted (some sample) a l = record {
  provider = copy_stats a (take_sample sample l.provider);
  adapter = a;
}

unfoldable with_state :
    Option LocalPlayerObservedState → List LocalPlayerObservedState → List LocalPlayerObservedState
with_state none seen = seen
with_state (some state) seen = seen ++ (state ∷ [])

submit-submitted :
    (ev : PlayerHostEvent) (l : Live)
    → l.provider.installed ≡ true
    → let (sample?, a) = clf4_pla_normalize ev l.adapter in
      (lpo_live_provider_submit ev l).1 ≡ submitted sample? a l
unfolding lpo_live_provider_submit submitted
submit-submitted ev l i = elim (Option-cases (clf4_pla_normalize ev l.adapter).0) [
  | inl e ↦ simp (i, e) refl
  | inr (sample, e) ↦ simp (i, e) refl
]

submitted-Shows :
    (fallback : ℕ) (seen : List LocalPlayerObservedState) (l : Live) (sample? : Option LiveSample)
    (a : LiveAdapterStats)
    → Shows fallback seen l
    → a.fallback_player_id ≡ fallback
    → Shows fallback (with_state (map_state sample?) seen) (submitted sample? a l)
unfolding submitted with_state map_state
submitted-Shows fallback seen l none a s e = record {
  ringed = record { head = s.ringed.head; count = s.ringed.count; tail = s.ringed.tail };
  installed = s.installed;
  player = e;
  kept = s.kept;
  known = s.known;
}
submitted-Shows fallback seen l (some sample) a s e = take_sample-Shows fallback seen l sample a s e

-- The state of an event, if it is good.
abbrev good_state : ℕ → PlayerHostEvent → Option LocalPlayerObservedState
good_state fallback ev = if is_good fallback ev then some (observed_state fallback ev) else none

submit-Shows :
    (fallback : ℕ) (seen : List LocalPlayerObservedState) (l : Live) (ev : PlayerHostEvent)
    → Shows fallback seen l
    → Shows fallback (with_state (good_state fallback ev) seen) (lpo_live_provider_submit ev l).1
submit-Shows fallback seen l ev s =
    let r = clf4_pla_normalize ev l.adapter in
    subst (λ o. Shows fallback (with_state o seen) (lpo_live_provider_submit ev l).1)
      (normalize-good ev l.adapter ∙ ap (λ id. good_state id ev) s.player)
      (subst (Shows fallback (with_state (map_state r.0) seen))
        (sym (submit-submitted ev l s.installed))
        (submitted-Shows fallback seen l r.0 r.1 s (normalize-player ev l.adapter ∙ s.player)))

good_states-report :
    (fallback : ℕ) (ev : PlayerHostEvent) (seen : List LocalPlayerObservedState) (uses : List Use)
    → with_state (good_state fallback ev) seen ++ good_states fallback uses
      ≡ seen ++ good_states fallback (report ev ∷ uses)
unfolding good_states with_state
good_states-report fallback ev seen uses = elim (Bool-cases (is_good fallback ev)) [
  | inl e ↦ rw e (append_assoc seen (observed_state fallback ev ∷ []) (good_states fallback uses))
  | inr e ↦ rw e refl
]

use_provider-Shows :
    (fallback : ℕ) (seen : List LocalPlayerObservedState) (uses : List Use) (l : Live)
    → Shows fallback seen l
    → Shows fallback (seen ++ good_states fallback uses) (use_provider uses l)
unfolding use_provider good_states
use_provider-Shows fallback seen [] l s =
    subst (λ xs. Shows fallback xs l) (sym (append-nil seen)) s
use_provider-Shows fallback seen (report ev ∷ uses) l s =
    let l' = (lpo_live_provider_submit ev l).1 in
    subst (λ xs. Shows fallback xs (use_provider uses l'))
      (good_states-report fallback ev seen uses)
      (use_provider-Shows fallback (with_state (good_state fallback ev) seen) uses l'
        (submit-Shows fallback seen l ev s))
use_provider-Shows fallback seen (ask ∷ uses) l s =
    use_provider-Shows fallback seen uses
      (record l { provider = (live_provider_capture l.provider).1 })
      (capture-Shows fallback seen l s)

-- Valid states are handed out as they are.
abbrev IsKept : LocalPlayerObservedState → Type 0
IsKept state = state.valid ≡ true

good-IsKept : (fallback : ℕ) (uses : List Use) → All IsKept (good_states fallback uses)
unfolding good_states observed_state
good-IsKept fallback [] = record {}
good-IsKept fallback (report ev ∷ uses) = elim (Bool-cases (is_good fallback ev)) [
  | inl e ↦ rw e (refl, good-IsKept fallback uses)
  | inr e ↦ rw e (good-IsKept fallback uses)
]
good-IsKept fallback (ask ∷ uses) = good-IsKept fallback uses

handed_out-last :
    (g : LiveProviderState) (xs : List LocalPlayerObservedState)
    → All IsKept xs
    → (handed_out (last_of xs) g).0 ≡ last_of xs
unfolding handed_out hand_out
handed_out-last g [] all = refl
handed_out-last g (x ∷ []) all = ap (λ v. some (record x { valid = v })) (sym all.0)
handed_out-last g (x ∷ (y ∷ xs)) all = handed_out-last g (y ∷ xs) all.1

-- Once the live provider is installed, whatever the hook reports and however often the observer asks,
-- its ring holds the states of the last eight good events, the oldest first, and a capture returns the
-- state of the last good event, or nothing where there was none. An event is good if its player is
-- known, its numbers are finite and its stance exists.
pub use_provider-latest :
    (fallback : ℕ) (uses : List Use)
    → let l = use_provider uses (lpo_live_provider_install fallback) in
      (ring l.provider ≡ latest 8 (good_states fallback uses))
      × ((live_provider_capture l.provider).0 ≡ last_of (good_states fallback uses))
use_provider-latest fallback uses =
    let l = use_provider uses (lpo_live_provider_install fallback) in
    let s =
      use_provider-Shows fallback [] uses (lpo_live_provider_install fallback)
        (install-Shows fallback) in
    (
      s.kept,
      ap (λ r. r.0) (capture-handed_out fallback (good_states fallback uses) l s)
          ∙ handed_out-last l.provider (good_states fallback uses) (good-IsKept fallback uses),
    )
