-- ===== src/Client/Dispatch/Told.antt =====
-- What plugin/src/hook_dispatch_registry.c does to the plugin: what the message that stands for an event
-- does there.
use f4mp.Base.{refl, ap, map, take, leb, ltb, ℕ, Bool, if◌then◌else◌, ◌≡◌, List, [], ◌∷◌, arith}
use f4mp.Service.Floats.{Floats}
use f4mp.Client.Observer.Adapter.{PlayerHostEvent}
use f4mp.Client.Manager.{Plugin}
use f4mp.Client.Apply.{pa_apply_dialogue_line, pa_apply_quest_update}
use f4mp.Client.Delivery.Updates.{
  apply_update, sent_player_state, sent_actor_spawn, sent_actor_state, sent_actor_despawn,
  sent_damage_result, sent_death_event, sent_object_spawn, sent_object_update, sent_object_despawn,
  sent_dialogue_open,
}
use f4mp.Client.Dispatch.{
  ActorHostEventKind, ahe_spawn, ahe_update, ahe_despawn, ahe_damage, ahe_death,
  WorkshopHostEventKind, whe_place, whe_move, whe_scrap, ingest_actor, ingest_workshop,
  ingest_dialogue, phe_translate_player_state, ahe_translate_spawn, ahe_translate_state,
  ahe_translate_despawn, ahe_translate_damage, ahe_translate_death, whe_translate_spawn,
  whe_translate_update, whe_translate_despawn, dqet_translate_open, dqet_translate_line,
  dqet_translate_quest, ActorHostEvent, WorkshopHostEvent, DialogueHostLineEvent,
  QuestHostObjectiveEvent, Dispatcher, hdr_dispatch_player_event, hdr_dispatch_actor_event,
  hdr_dispatch_workshop_event, hdr_dispatch_dialogue_event, hdr_dispatch_quest_event,
}

pub data HostEvent : Type 0 where
  player_event : PlayerHostEvent → HostEvent
  actor_event : ActorHostEvent → HostEvent
  workshop_event : WorkshopHostEvent → HostEvent
  dialogue_event : DialogueHostLineEvent → HostEvent
  quest_event : QuestHostObjectiveEvent → HostEvent

-- The message that stands for an event, applied to the plugin.
module _ (F : Floats) where
  abbrev pub actor_told : ActorHostEventKind → ActorHostEvent → Plugin → Bool × Plugin
  actor_told ahe_spawn ev = apply_update F (
      sent_actor_spawn (record {
        actor_net_id = ev.actor_net_id;
        base_form_id = ev.base_form_id;
        position = ev.position;
        rotation = ev.rotation;
        actor_kind = ev.actor_kind;
        reserved0 = 0;
        flags = ev.actor_flags;
      }))
  actor_told ahe_update ev = apply_update F (
      sent_actor_state (record {
        actor_net_id = ev.actor_net_id;
        position = ev.position;
        rotation = ev.rotation;
        health_norm = ev.health_norm;
        anim_state = ev.anim_state;
        actor_flags = ev.actor_flags;
        target_net_id = ev.target_net_id;
      }))
  actor_told ahe_despawn ev = apply_update F (
      sent_actor_despawn (record {
        actor_net_id = ev.actor_net_id;
        reason = ev.despawn_reason;
        reserved0 = 0 ∷ 0 ∷ 0 ∷ [];
      }))
  actor_told ahe_damage ev = apply_update F (
      sent_damage_result (record {
        attacker_id = ev.attacker_id;
        victim_actor_net_id = ev.actor_net_id;
        damage_amount = ev.damage_amount;
        damage_type = ev.damage_type;
        reserved0 = 0;
        flags = ev.damage_flags;
        health_after = ev.health_after;
      }))
  actor_told ahe_death ev = apply_update F (
      sent_death_event (record {
        victim_actor_net_id = ev.actor_net_id;
        killer_id = ev.killer_id;
        ragdoll_seed = ev.ragdoll_seed;
      }))

  abbrev pub workshop_told : WorkshopHostEventKind → WorkshopHostEvent → Plugin → Bool × Plugin
  workshop_told whe_place ev = apply_update F (
      sent_object_spawn (record {
        object_net_id = ev.object_net_id;
        form_id = ev.form_id;
        position = ev.position;
        rotation = ev.rotation;
        state_flags = ev.state_flags;
        reserved0 = 0;
      }))
  workshop_told whe_move ev = apply_update F (
      sent_object_update (record {
        object_net_id = ev.object_net_id;
        fields_mask = 7;
        position = ev.position;
        rotation = ev.rotation;
        state_flags = ev.state_flags;
        reserved0 = 0;
      }))
  workshop_told whe_scrap ev = apply_update F (
      sent_object_despawn
        (record { object_net_id = ev.object_net_id; reason = 0; reserved0 = 0 ∷ 0 ∷ 0 ∷ [] }))

  abbrev pub dialogue_told : List ℕ → DialogueHostLineEvent → Plugin → Bool × Plugin
  dialogue_told [] ev = apply_update F (
      sent_dialogue_open (record {
        dialogue_id = ev.dialogue_id;
        npc_actor_net_id = ev.npc_actor_net_id;
        speaker_actor_net_id = ev.speaker_actor_net_id;
      }))
  dialogue_told (c ∷ text) ev =
      pa_apply_dialogue_line
        (record { dialogue_id = ev.dialogue_id; speaker_actor_net_id = ev.speaker_actor_net_id })
        (c ∷ text)

  -- The first `n` objectives, with at most 255 bytes of each text.
  abbrev pub quest_of : ℕ → QuestHostObjectiveEvent → Plugin → Bool × Plugin
  quest_of n ev =
      pa_apply_quest_update
        (record {
          quest_id = ev.quest_id;
          stage = ev.stage;
          tracked = ev.tracked;
          objective_count = n;
        })
        (map (λ r. (r.0, take 255 r.1)) (take n ev.objectives))

  -- At most 16 of them.
  abbrev pub quest_told : QuestHostObjectiveEvent → Plugin → Bool × Plugin
  quest_told ev = quest_of (if leb ev.objective_count 16 then ev.objective_count else 16) ev

  abbrev pub told : HostEvent → Plugin → Bool × Plugin
  told (player_event ev) = apply_update F (
      sent_player_state (record {
        player_id = ev.player_id;
        reserved = 0;
        position = ev.position;
        rotation = ev.rotation;
        velocity = ev.velocity;
        stance = ev.stance;
        reserved2 = 0 ∷ 0 ∷ 0 ∷ [];
        anim_state = ev.anim_state;
        reserved3 = 0;
        equipped_form_id = ev.equipped_form_id;
        state_sequence = 0;
        observed_tick = 0;
      }))
  told (actor_event ev) = actor_told ev.kind ev
  told (workshop_event ev) = workshop_told ev.kind ev
  told (dialogue_event ev) = dialogue_told ev.text ev
  told (quest_event ev) = quest_told ev

  -- One after another: what each returned, and what they leave.
  unfoldable pub told_all : List HostEvent → Plugin → List Bool × Plugin
  told_all [] p = ([], p)
  told_all (ev ∷ evs) p =
      let (ok, p₁) = told ev p in let (oks, p₂) = told_all evs p₁ in (ok ∷ oks, p₂)

module _ (F : Floats) where
  unfoldable pub dispatch_event : HostEvent → Dispatcher → Bool × Dispatcher
  dispatch_event (player_event ev) d = hdr_dispatch_player_event F ev d
  dispatch_event (actor_event ev) d = hdr_dispatch_actor_event F ev d
  dispatch_event (workshop_event ev) d = hdr_dispatch_workshop_event ev d
  dispatch_event (dialogue_event ev) d = hdr_dispatch_dialogue_event ev d
  dispatch_event (quest_event ev) d = hdr_dispatch_quest_event ev d

  workshop-told_as :
      (k : WorkshopHostEventKind) (ev : WorkshopHostEvent) (p : Plugin)
      → ingest_workshop (record ev { kind = k }) p ≡ workshop_told F k (record ev { kind = k }) p
  unfolding ingest_workshop whe_translate_spawn whe_translate_update whe_translate_despawn
  workshop-told_as whe_place ev p = refl
  workshop-told_as whe_move ev p = refl
  workshop-told_as whe_scrap ev p = refl

  workshop-told :
      (ev : WorkshopHostEvent) (p : Plugin) → ingest_workshop ev p ≡ workshop_told F ev.kind ev p
  workshop-told ev p = workshop-told_as ev.kind ev p

  actor-told_as :
      (k : ActorHostEventKind) (ev : ActorHostEvent) (p : Plugin)
      → ingest_actor F (record ev { kind = k }) p ≡ actor_told F k (record ev { kind = k }) p
  unfolding ingest_actor ahe_translate_spawn ahe_translate_state ahe_translate_despawn
      ahe_translate_damage ahe_translate_death
  actor-told_as ahe_spawn ev p = refl
  actor-told_as ahe_update ev p = refl
  actor-told_as ahe_despawn ev p = refl
  actor-told_as ahe_damage ev p = refl
  actor-told_as ahe_death ev p = refl

  actor-told : (ev : ActorHostEvent) (p : Plugin) → ingest_actor F ev p ≡ actor_told F ev.kind ev p
  actor-told ev p = actor-told_as ev.kind ev p

  dialogue-told_as :
      (k : List ℕ) (ev : DialogueHostLineEvent) (p : Plugin)
      → ingest_dialogue (record ev { text = k }) p ≡ dialogue_told F k (record ev { text = k }) p
  unfolding ingest_dialogue dqet_translate_open dqet_translate_line
  dialogue-told_as [] ev p = refl
  dialogue-told_as (c ∷ text) ev p = refl

  dialogue-told :
      (ev : DialogueHostLineEvent) (p : Plugin)
      → ingest_dialogue ev p ≡ dialogue_told F ev.text ev p
  dialogue-told ev p = dialogue-told_as ev.text ev p

  at_most_16 : (n : ℕ) → (if ltb n 16 then n else 16) ≡ (if leb n 16 then n else 16)
  at_most_16 n = ground arith

  pub dispatch_event-told :
      (ev : HostEvent) (d : Dispatcher)
      → ((dispatch_event ev d).0 ≡ (told F ev d.plugin).0)
        × ((dispatch_event ev d).1.plugin ≡ (told F ev d.plugin).1)
  unfolding dispatch_event hdr_dispatch_player_event hdr_dispatch_actor_event
      hdr_dispatch_workshop_event hdr_dispatch_dialogue_event hdr_dispatch_quest_event
      phe_translate_player_state dqet_translate_quest
  dispatch_event-told (player_event ev) d = (refl, refl)
  dispatch_event-told (actor_event ev) d =
      (ap (λ r. r.0) (actor-told ev d.plugin), ap (λ r. r.1) (actor-told ev d.plugin))
  dispatch_event-told (workshop_event ev) d =
      (ap (λ r. r.0) (workshop-told ev d.plugin), ap (λ r. r.1) (workshop-told ev d.plugin))
  dispatch_event-told (dialogue_event ev) d =
      (ap (λ r. r.0) (dialogue-told ev d.plugin), ap (λ r. r.1) (dialogue-told ev d.plugin))
  dispatch_event-told (quest_event ev) d =
      let same = at_most_16 ev.objective_count in
      (ap (λ n. (quest_of F n ev d.plugin).0) same, ap (λ n. (quest_of F n ev d.plugin).1) same)
