-- ===== src/Client/Dispatch/Counts.antt =====
-- What plugin/src/hook_dispatch_registry.c counts.
use f4mp.Base.{
  refl, ap, ◌∙◌, true, false, not, ◌&&◌, ℕ, Bool, if◌then◌else◌, ◌+◌, ◌^◌, ◌<◌, ◌≡◌, List, [], ◌∷◌,
  arith, length,
}
use f4mp.Service.Floats.{Floats}
use f4mp.Client.Dispatch.{
  HookDispatchStats, Dispatcher, hdr_dispatch_player_event, hdr_dispatch_actor_event,
  hdr_dispatch_workshop_event, hdr_dispatch_dialogue_event, hdr_dispatch_quest_event,
}
use f4mp.Client.Dispatch.Told.{
  HostEvent, player_event, actor_event, workshop_event, dialogue_event, quest_event, told, told_all,
  dispatch_event, dispatch_event-told,
}

unfoldable pub total : HookDispatchStats → ℕ
total s =
    s.player_events + s.actor_events + s.workshop_events + s.dialogue_events + s.quest_events
    + s.failures

-- The events of each kind.
abbrev pub is_player_event : HostEvent → Bool
is_player_event (player_event ev) = true
is_player_event _ = false

abbrev pub is_actor_event : HostEvent → Bool
is_actor_event (actor_event ev) = true
is_actor_event _ = false

abbrev pub is_workshop_event : HostEvent → Bool
is_workshop_event (workshop_event ev) = true
is_workshop_event _ = false

abbrev pub is_dialogue_event : HostEvent → Bool
is_dialogue_event (dialogue_event ev) = true
is_dialogue_event _ = false

abbrev pub is_quest_event : HostEvent → Bool
is_quest_event (quest_event ev) = true
is_quest_event _ = false

-- How many events pass a test, with what their dispatch returned.
abbrev pub count : (HostEvent → Bool → Bool) → List HostEvent → List Bool → ℕ
count test [] oks = 0
count test (ev ∷ evs) [] = 0
count test (ev ∷ evs) (ok ∷ oks) = (if test ev ok then 1 else 0) + count test evs oks

-- How the counters grow: one for each kind, of the events that succeeded, and one of those that failed.
pub record Grows (evs : List HostEvent) (oks : List Bool) (s s' : HookDispatchStats) : Type 0 where
  pub players :
      s'.player_events ≡ s.player_events + count (λ ev ok. is_player_event ev && ok) evs oks
  pub actors : s'.actor_events ≡ s.actor_events + count (λ ev ok. is_actor_event ev && ok) evs oks
  pub workshops :
      s'.workshop_events ≡ s.workshop_events + count (λ ev ok. is_workshop_event ev && ok) evs oks
  pub dialogues :
      s'.dialogue_events ≡ s.dialogue_events + count (λ ev ok. is_dialogue_event ev && ok) evs oks
  pub quests : s'.quest_events ≡ s.quest_events + count (λ ev ok. is_quest_event ev && ok) evs oks
  pub failed : s'.failures ≡ s.failures + count (λ ev ok. not ok) evs oks

module _ (F : Floats) where
  -- What each dispatch returned, and the dispatcher after them.
  unfoldable pub dispatch_all : List HostEvent → Dispatcher → List Bool × Dispatcher
  dispatch_all [] d = ([], d)
  dispatch_all (ev ∷ evs) d =
      let (ok, d₁) = dispatch_event F ev d in let (oks, d₂) = dispatch_all evs d₁ in (ok ∷ oks, d₂)

  dispatch_event-Grows :
      (ev : HostEvent) (d : Dispatcher)
      → total d.stats + 1 < 2 ^ 32
      → Grows (ev ∷ []) ((dispatch_event F ev d).0 ∷ []) d.stats (dispatch_event F ev d).1.stats
  unfolding dispatch_event total hdr_dispatch_player_event hdr_dispatch_actor_event
      hdr_dispatch_workshop_event hdr_dispatch_dialogue_event hdr_dispatch_quest_event
  dispatch_event-Grows (player_event ev) d room = ground arith
  dispatch_event-Grows (actor_event ev) d room = ground arith
  dispatch_event-Grows (workshop_event ev) d room = ground arith
  dispatch_event-Grows (dialogue_event ev) d room = ground arith
  dispatch_event-Grows (quest_event ev) d room = ground arith

  dispatch_event-total :
      (ev : HostEvent) (d : Dispatcher)
      → total d.stats + 1 < 2 ^ 32
      → total (dispatch_event F ev d).1.stats ≡ total d.stats + 1
  unfolding dispatch_event total hdr_dispatch_player_event hdr_dispatch_actor_event
      hdr_dispatch_workshop_event hdr_dispatch_dialogue_event hdr_dispatch_quest_event
  dispatch_event-total (player_event ev) d room = ground arith
  dispatch_event-total (actor_event ev) d room = ground arith
  dispatch_event-total (workshop_event ev) d room = ground arith
  dispatch_event-total (dialogue_event ev) d room = ground arith
  dispatch_event-total (quest_event ev) d room = ground arith

  Grows-next :
      (ev : HostEvent) (evs : List HostEvent) (ok : Bool) (oks : List Bool)
      (s s' s'' : HookDispatchStats)
      → Grows (ev ∷ []) (ok ∷ []) s s'
      → Grows evs oks s' s''
      → Grows (ev ∷ evs) (ok ∷ oks) s s''
  Grows-next ev evs ok oks s s' s'' g h = record {
    players = omega (arith, g.players, h.players);
    actors = omega (arith, g.actors, h.actors);
    workshops = omega (arith, g.workshops, h.workshops);
    dialogues = omega (arith, g.dialogues, h.dialogues);
    quests = omega (arith, g.quests, h.quests);
    failed = omega (arith, g.failed, h.failed);
  }

  -- A run of host events returns, one by one, and leaves to the plugin what the messages that stand for
  -- them do when they are applied one after the other; the counter of each kind grows by the number of
  -- events of that kind that returned true, and the failures by the number of those that returned false,
  -- while the counters have room for all.
  pub dispatch_all-counted :
      (evs : List HostEvent) (d : Dispatcher)
      → total d.stats + length evs < 2 ^ 32
      → let (oks, d') = dispatch_all evs d in
        (oks ≡ (told_all F evs d.plugin).0)
        × (d'.plugin ≡ (told_all F evs d.plugin).1)
        × Grows evs oks d.stats d'.stats
  unfolding dispatch_all told_all
  dispatch_all-counted [] d room = (
    refl,
    refl,
    record {
      players = omega arith;
      actors = omega arith;
      workshops = omega arith;
      dialogues = omega arith;
      quests = omega arith;
      failed = omega arith;
    },
  )
  dispatch_all-counted (ev ∷ evs) d room =
      let (ok, plugin) = dispatch_event-told F ev d in
      let d₁ = (dispatch_event F ev d).1 in
      let (oks, left, grows) =
        dispatch_all-counted evs d₁ (omega (arith, dispatch_event-total ev d (omega arith))) in
      (
        ap (λ b. b ∷ (dispatch_all evs d₁).0) ok
            ∙ ap (◌∷◌ (told F ev d.plugin).0) (oks ∙ ap (λ p. (told_all F evs p).0) plugin),
        left ∙ ap (λ p. (told_all F evs p).1) plugin,
        Grows-next ev evs _ _ d.stats d₁.stats _ (dispatch_event-Grows ev d (omega arith)) grows,
      )
