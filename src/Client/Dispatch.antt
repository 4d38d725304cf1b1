-- ===== src/Client/Dispatch.antt =====
-- What the hooks into the game report of a host's world: plugin/src/hook_dispatch_registry.c, with
-- player_event_translation.c, actor_event_translation.c, workshop_event_translation.c,
-- dialogue_quest_event_translation.c and fo4_bridge_ingress.c.
pub mod Told
pub mod Counts
use f4mp.Base.{
  ℕ, Bool, true, false, Option, none, some, List, [], ◌∷◌, ltb, if◌then◌else◌, take, map,
}
use f4mp.Messages.Types.{Vec3f, Rot3f}
use f4mp.Messages.Player.{MsgPlayerState}
use f4mp.Messages.Actor.{MsgActorSpawn, MsgActorState, MsgActorDespawn}
use f4mp.Messages.Combat.{MsgDamageResult, MsgDeathEvent}
use f4mp.Messages.Workshop.{MsgObjectSpawn, MsgObjectUpdate, MsgObjectDespawn}
use f4mp.Messages.Ui.{
  MsgDialogueOpen, MsgDialogueLine, MsgQuestUpdateHeader, MsgQuestObjectiveRecord,
}
use f4mp.Service.Floats.{Floats}
use f4mp.Service.Zero.{zero_player_state}
use f4mp.Client.Scene.Driver.{next32}
use f4mp.Client.Manager.{Plugin}
use f4mp.Client.Observer.Adapter.{PlayerHostEvent}
use f4mp.Client.Apply.{
  pa_apply_player_state, pa_apply_actor_spawn, pa_apply_actor_state, pa_apply_actor_despawn,
  pa_apply_damage_result, pa_apply_death_event, pa_apply_object_spawn, pa_apply_object_update,
  pa_apply_object_despawn, pa_apply_dialogue_open, pa_apply_dialogue_line, pa_apply_quest_update,
}

pub data ActorHostEventKind : Type 0 where
  ahe_spawn ahe_update ahe_despawn ahe_damage ahe_death : ActorHostEventKind

pub record ActorHostEvent : Type 0 where
  pub kind : ActorHostEventKind
  pub actor_net_id : ℕ
  pub base_form_id : ℕ
  pub position : Vec3f
  pub rotation : Rot3f
  pub actor_kind : ℕ
  pub actor_flags : ℕ
  pub health_norm : ℕ
  pub anim_state : ℕ
  pub target_net_id : ℕ
  pub despawn_reason : ℕ
  pub attacker_id : ℕ
  pub damage_amount : ℕ
  pub damage_type : ℕ
  pub damage_flags : ℕ
  pub health_after : ℕ
  pub killer_id : ℕ
  pub ragdoll_seed : ℕ

pub data WorkshopHostEventKind : Type 0 where
  whe_place whe_move whe_scrap : WorkshopHostEventKind

pub record WorkshopHostEvent : Type 0 where
  pub kind : WorkshopHostEventKind
  pub object_net_id : ℕ
  pub settlement_id : ℕ
  pub form_id : ℕ
  pub position : Vec3f
  pub rotation : Rot3f
  pub state_flags : ℕ

-- `text` is empty for NULL.
pub record DialogueHostLineEvent : Type 0 where
  pub dialogue_id : ℕ
  pub npc_actor_net_id : ℕ
  pub speaker_actor_net_id : ℕ
  pub text : List ℕ

-- The objectives with their texts, of which there are four; a greater count reads what lies behind them.
pub record QuestHostObjectiveEvent : Type 0 where
  pub quest_id : ℕ
  pub stage : ℕ
  pub tracked : ℕ
  pub objective_count : ℕ
  pub objectives : List (MsgQuestObjectiveRecord × List ℕ)

unfoldable pub phe_translate_player_state : PlayerHostEvent → MsgPlayerState
phe_translate_player_state ev = record zero_player_state {
  player_id = ev.player_id;
  position = ev.position;
  rotation = ev.rotation;
  velocity = ev.velocity;
  stance = ev.stance;
  anim_state = ev.anim_state;
  equipped_form_id = ev.equipped_form_id;
}

unfoldable pub ahe_translate_spawn : ActorHostEvent → MsgActorSpawn
ahe_translate_spawn ev = record {
  actor_net_id = ev.actor_net_id;
  base_form_id = ev.base_form_id;
  position = ev.position;
  rotation = ev.rotation;
  actor_kind = ev.actor_kind;
  reserved0 = 0;
  flags = ev.actor_flags;
}

unfoldable pub ahe_translate_state : ActorHostEvent → MsgActorState
ahe_translate_state ev = record {
  actor_net_id = ev.actor_net_id;
  position = ev.position;
  rotation = ev.rotation;
  health_norm = ev.health_norm;
  anim_state = ev.anim_state;
  actor_flags = ev.actor_flags;
  target_net_id = ev.target_net_id;
}

unfoldable pub ahe_translate_despawn : ActorHostEvent → MsgActorDespawn
ahe_translate_despawn ev = record {
  actor_net_id = ev.actor_net_id;
  reason = ev.despawn_reason;
  reserved0 = 0 ∷ 0 ∷ 0 ∷ [];
}

unfoldable pub ahe_translate_damage : ActorHostEvent → MsgDamageResult
ahe_translate_damage ev = record {
  attacker_id = ev.attacker_id;
  victim_actor_net_id = ev.actor_net_id;
  damage_amount = ev.damage_amount;
  damage_type = ev.damage_type;
  reserved0 = 0;
  flags = ev.damage_flags;
  health_after = ev.health_after;
}

unfoldable pub ahe_translate_death : ActorHostEvent → MsgDeathEvent
ahe_translate_death ev = record {
  victim_actor_net_id = ev.actor_net_id;
  killer_id = ev.killer_id;
  ragdoll_seed = ev.ragdoll_seed;
}

unfoldable pub whe_translate_spawn : WorkshopHostEvent → MsgObjectSpawn
whe_translate_spawn ev = record {
  object_net_id = ev.object_net_id;
  form_id = ev.form_id;
  position = ev.position;
  rotation = ev.rotation;
  state_flags = ev.state_flags;
  reserved0 = 0;
}

-- OUF_POSITION | OUF_ROTATION | OUF_STATE_FLAGS
unfoldable pub whe_translate_update : WorkshopHostEvent → MsgObjectUpdate
whe_translate_update ev = record {
  object_net_id = ev.object_net_id;
  fields_mask = 7;
  position = ev.position;
  rotation = ev.rotation;
  state_flags = ev.state_flags;
  reserved0 = 0;
}

-- ODESPAWN_SCRAPPED
unfoldable pub whe_translate_despawn : WorkshopHostEvent → MsgObjectDespawn
whe_translate_despawn ev = record {
  object_net_id = ev.object_net_id;
  reason = 0;
  reserved0 = 0 ∷ 0 ∷ 0 ∷ [];
}

unfoldable pub dqet_translate_open : DialogueHostLineEvent → MsgDialogueOpen
dqet_translate_open ev = record {
  dialogue_id = ev.dialogue_id;
  npc_actor_net_id = ev.npc_actor_net_id;
  speaker_actor_net_id = ev.speaker_actor_net_id;
}

unfoldable pub dqet_translate_line : DialogueHostLineEvent → MsgDialogueLine
dqet_translate_line ev = record {
  dialogue_id = ev.dialogue_id;
  speaker_actor_net_id = ev.speaker_actor_net_id;
}

-- The count of objectives is cut to max_objs.
unfoldable pub dqet_translate_quest :
    ℕ → QuestHostObjectiveEvent → MsgQuestUpdateHeader × List (MsgQuestObjectiveRecord × List ℕ)
dqet_translate_quest max_objs ev = (
  record {
    quest_id = ev.quest_id;
    stage = ev.stage;
    tracked = ev.tracked;
    objective_count = count;
  },
  take count ev.objectives,
)
  where
    count : ℕ
    count = if ltb ev.objective_count max_objs then ev.objective_count else max_objs

pub record HookDispatchStats : Type 0 where
  pub player_events : ℕ
  pub actor_events : ℕ
  pub workshop_events : ℕ
  pub dialogue_events : ℕ
  pub quest_events : ℕ
  pub failures : ℕ

-- The statics, with what events are applied to.
pub record Dispatcher : Type 0 where
  pub stats : HookDispatchStats
  pub last_player_state : Option MsgPlayerState
  pub plugin : Plugin

unfoldable pub hdr_init : HookDispatchStats
hdr_init = record {
  player_events = 0;
  actor_events = 0;
  workshop_events = 0;
  dialogue_events = 0;
  quest_events = 0;
  failures = 0;
}

-- `if (!ok) { g_stats.failures++; return false; } g_stats.<counter>++; return true;`
abbrev pub finish :
    (HookDispatchStats → HookDispatchStats) → Bool × Plugin → Dispatcher → Bool × Dispatcher
finish success (ok, plugin) d =
    let failed : HookDispatchStats = record stats { failures = next32 stats.failures } in
    (ok, record d { stats = if ok then success stats else failed; plugin = plugin })
  where
    open d use {stats}

module _ (F : Floats) where
  unfoldable pub hdr_dispatch_player_event : PlayerHostEvent → Dispatcher → Bool × Dispatcher
  hdr_dispatch_player_event ev d =
      let msg = phe_translate_player_state ev in
      finish (λ s. record s { player_events = next32 s.player_events })
        (pa_apply_player_state F msg d.plugin) (record d { last_player_state = some msg })

  unfoldable pub ingest_actor : ActorHostEvent → Plugin → Bool × Plugin
  ingest_actor ev = elim ev.kind [
    | ahe_spawn ↦ pa_apply_actor_spawn (ahe_translate_spawn ev)
    | ahe_update ↦ pa_apply_actor_state F (ahe_translate_state ev)
    | ahe_despawn ↦ pa_apply_actor_despawn (ahe_translate_despawn ev)
    | ahe_damage ↦ pa_apply_damage_result F (ahe_translate_damage ev)
    | ahe_death ↦ pa_apply_death_event (ahe_translate_death ev)
  ]

  unfoldable pub hdr_dispatch_actor_event : ActorHostEvent → Dispatcher → Bool × Dispatcher
  hdr_dispatch_actor_event ev d =
      finish (λ s. record s { actor_events = next32 s.actor_events }) (ingest_actor ev d.plugin) d

unfoldable pub ingest_workshop : WorkshopHostEvent → Plugin → Bool × Plugin
ingest_workshop ev = elim ev.kind [
  | whe_place ↦ pa_apply_object_spawn (whe_translate_spawn ev)
  | whe_move ↦ pa_apply_object_update (whe_translate_update ev)
  | whe_scrap ↦ pa_apply_object_despawn (whe_translate_despawn ev)
]

unfoldable pub hdr_dispatch_workshop_event : WorkshopHostEvent → Dispatcher → Bool × Dispatcher
hdr_dispatch_workshop_event ev d =
    finish (λ s. record s { workshop_events = next32 s.workshop_events })
      (ingest_workshop ev d.plugin) d

-- A line without a text opens the dialogue.
unfoldable pub ingest_dialogue : DialogueHostLineEvent → Plugin → Bool × Plugin
ingest_dialogue ev = elim ev.text [
  | [] ↦ pa_apply_dialogue_open (dqet_translate_open ev)
  | ◌∷◌ c text ↦ pa_apply_dialogue_line (dqet_translate_line ev) ev.text
]

unfoldable pub hdr_dispatch_dialogue_event : DialogueHostLineEvent → Dispatcher → Bool × Dispatcher
hdr_dispatch_dialogue_event ev d =
    finish (λ s. record s { dialogue_events = next32 s.dialogue_events })
      (ingest_dialogue ev d.plugin) d

-- A text is copied into 256 bytes with its terminating zero.
abbrev pub copied : MsgQuestObjectiveRecord × List ℕ → MsgQuestObjectiveRecord × List ℕ
copied (objective, text) = (objective, take 255 text)

unfoldable pub hdr_dispatch_quest_event : QuestHostObjectiveEvent → Dispatcher → Bool × Dispatcher
hdr_dispatch_quest_event ev d =
    let (h, objectives) = dqet_translate_quest 16 ev in
    finish (λ s. record s { quest_events = next32 s.quest_events })
      (pa_apply_quest_update h (map copied objectives) d.plugin) d
