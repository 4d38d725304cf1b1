-- ===== src/Client/Events/Death.antt =====
-- Deaths and despawns of actors at plugin/src/proxy_runtime.c.
use f4mp.Base.{ℕ, ◌≡◌, ◌≢◌, ◌⊎◌, true, false, some, arith}
use f4mp.Messages.Combat.{MsgDeathEvent}
use f4mp.Client.Table.Laws.{get-found}
use f4mp.Client.Table.Refines.{change_slot-get}
use f4mp.Client.Records.{ProxyActorRecord, ProxyDialogueState, ProxyRuntime, actor_keyed}
use f4mp.Client.Runtime.{interrupt, proxy_runtime_get_actor}
use f4mp.Client.Events.{proxy_set_death_event, after_death}

-- No open dialogue has the actor in it.
abbrev pub IsQuiet : ℕ → ProxyDialogueState → Type 0
IsQuiet actor d =
    (d.active ≡ false) ⊎ ((d.npc_actor_net_id ≢ actor) × (d.speaker_actor_net_id ≢ actor))

interrupt-IsQuiet : (actor : ℕ) (d : ProxyDialogueState) → IsQuiet actor (interrupt actor d)
unfolding interrupt
interrupt-IsQuiet actor d = ground arith

-- After the death of an actor that the plugin knows, its record is dead with no health, and no open
-- dialogue has it as its partner or its speaker.
pub proxy_set_death_event-IsQuiet :
    (msg : MsgDeathEvent) (rt : ProxyRuntime) (a : ProxyActorRecord)
    → proxy_runtime_get_actor rt msg.victim_actor_net_id ≡ some a
    → (proxy_runtime_get_actor (proxy_set_death_event msg rt) msg.victim_actor_net_id
        ≡ some (record a { is_dead = true; health_norm = 0 }))
      × IsQuiet msg.victim_actor_net_id (proxy_set_death_event msg rt).dialogue
unfolding proxy_set_death_event proxy_runtime_get_actor actor_keyed
proxy_set_death_event-IsQuiet msg rt a e = (
  (change_slot-get msg.victim_actor_net_id after_death rt.actors a e
      (get-found msg.victim_actor_net_id rt.actors a e)).1,
  interrupt-IsQuiet msg.victim_actor_net_id rt.dialogue,
)
