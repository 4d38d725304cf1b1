-- ===== src/Client/Events.antt =====
-- plugin/src/proxy_runtime.c: what the service says of actors, combat, the profile, dialogue and quest.
pub mod Death
use f4mp.Base.{
  ℕ, suc, zero, Bool, true, false, not, ◌&&◌, ◌||◌, Option, none, some, List, [], ◌∷◌, ◌==◌, ltb,
  if◌then◌else◌, take,
}
use f4mp.Codec.Ui.{text_or_empty}
use f4mp.Messages.Control.{
  MsgProfileSnapshot, MsgProfileItemsHeader, MsgProfileItemRecord, MsgProfilePerksHeader,
  MsgProfilePerkRecord, MsgProfileAppearance,
}
use f4mp.Messages.Combat.{MsgDamageResult, MsgDeathEvent}
use f4mp.Messages.Ui.{
  MsgDialogueOpen, MsgDialogueLine, MsgDialogueChoicesHeader, MsgDialogueChoiceRecord,
  MsgDialogueSelect, MsgDialogueClose, MsgQuestUpdateHeader, MsgQuestObjectiveRecord,
}
use f4mp.Service.Floats.{Floats}
use f4mp.Service.Quest.{has_bit}
use f4mp.Client.Table.{change_slot}
use f4mp.Client.Records.{
  ProxyActorUpdateSpec, ProxyActorRecord, ProxyProfileItemState, ProxyProfilePerkState,
  ProxyDialogueChoiceState, ProxyDialogueState, ProxyQuestObjectiveState, ProxyRuntime, actor_keyed,
  zero_proxy_dialogue_state, zero_proxy_quest_state,
}
use f4mp.Client.Runtime.{interrupt}

-- A loop that writes the first entries of an array, each from one of the source's.
unfoldable pub store_first : {A B : Type 0} → (A → B → B) → ℕ → List A → List B → List B
store_first f zero xs ys = ys
store_first f (suc n) [] ys = ys
store_first f (suc n) (x ∷ xs) [] = []
store_first f (suc n) (x ∷ xs) (y ∷ ys) = f x y ∷ store_first f n xs ys

-- `(count < limit) ? count : limit`
abbrev pub at_most : ℕ → ℕ → ℕ
at_most limit count = if ltb count limit then count else limit

module _ (F : Floats) where
  open F use {lt, le}

  abbrev pub actor_of_update : ProxyActorUpdateSpec → ProxyActorRecord → ProxyActorRecord
  actor_of_update spec s = record s {
    position = spec.position;
    rotation = spec.rotation;
    health_norm = spec.health_norm;
    anim_state = spec.anim_state;
    actor_flags = spec.actor_flags;
    target_net_id = spec.target_net_id;
    is_dead = if lt 0 spec.health_norm then false else s.is_dead;
  }

  unfoldable pub proxy_update_actor : ProxyActorUpdateSpec → ProxyRuntime → Bool × ProxyRuntime
  proxy_update_actor spec rt =
      let (ok, actors) = change_slot spec.actor_net_id (actor_of_update spec) rt.actors in
      (ok, record rt { actors = actors })

  abbrev pub damaged : MsgDamageResult → ProxyActorRecord → ProxyActorRecord
  damaged msg s = record s {
    health_norm = msg.health_after;
    last_damage_from = msg.attacker_id;
    last_damage_amount = msg.damage_amount;
    is_dead = if has_bit msg.flags 32 || le msg.health_after 0 then true else s.is_dead;
  }

  unfoldable pub proxy_set_damage_result : MsgDamageResult → ProxyRuntime → ProxyRuntime
  proxy_set_damage_result msg rt = record rt {
    combat = record combat { loaded = true; last_damage = msg };
    actors = (change_slot msg.victim_actor_net_id (damaged msg) actors).1;
  }
    where
      open rt use {combat, actors}

abbrev pub after_death : ProxyActorRecord → ProxyActorRecord
after_death s = record s { is_dead = true; health_norm = 0 }

unfoldable pub proxy_set_death_event : MsgDeathEvent → ProxyRuntime → ProxyRuntime
proxy_set_death_event msg rt = record rt {
  combat = record combat { has_last_death = true; last_death = msg };
  actors = (change_slot msg.victim_actor_net_id after_death actors).1;
  dialogue = interrupt msg.victim_actor_net_id dialogue;
}
  where
    open rt use {combat, actors, dialogue}

unfoldable pub proxy_set_profile_snapshot : MsgProfileSnapshot → ProxyRuntime → ProxyRuntime
proxy_set_profile_snapshot msg rt = record rt {
  profile = record profile { loaded = true; snapshot = msg };
}
  where
    open rt use {profile}

abbrev pub store_item : MsgProfileItemRecord → ProxyProfileItemState → ProxyProfileItemState
store_item m s = record { form_id = m.form_id; count = m.count; equipped = m.equipped }

unfoldable pub proxy_set_profile_items :
    MsgProfileItemsHeader → List MsgProfileItemRecord → ProxyRuntime → ProxyRuntime
proxy_set_profile_items h items rt = record rt {
  profile = record profile {
    item_count = at_most 16 h.item_count;
    items = store_first store_item (at_most 16 h.item_count) items profile.items;
  };
}
  where
    open rt use {profile}

abbrev pub store_perk : MsgProfilePerkRecord → ProxyProfilePerkState → ProxyProfilePerkState
store_perk m s = record { perk_form_id = m.perk_form_id; rank = m.rank }

unfoldable pub proxy_set_profile_perks :
    MsgProfilePerksHeader → List MsgProfilePerkRecord → ProxyRuntime → ProxyRuntime
proxy_set_profile_perks h perks rt = record rt {
  profile = record profile {
    perk_count = at_most 16 h.perk_count;
    perks = store_first store_perk (at_most 16 h.perk_count) perks profile.perks;
  };
}
  where
    open rt use {profile}

unfoldable pub proxy_set_profile_appearance : MsgProfileAppearance → ProxyRuntime → ProxyRuntime
proxy_set_profile_appearance msg rt = record rt { profile = record profile { appearance = msg } }
  where
    open rt use {profile}

unfoldable pub proxy_set_dialogue_open : MsgDialogueOpen → ProxyRuntime → ProxyRuntime
proxy_set_dialogue_open msg rt = record rt {
  dialogue = record zero_proxy_dialogue_state {
    active = true;
    dialogue_id = msg.dialogue_id;
    npc_actor_net_id = msg.npc_actor_net_id;
    speaker_actor_net_id = msg.speaker_actor_net_id;
  };
}

unfoldable pub proxy_set_dialogue_line :
    MsgDialogueLine → Option (List ℕ) → ProxyRuntime → ProxyRuntime
proxy_set_dialogue_line msg text rt = record rt {
  dialogue = record dialogue {
    active = true;
    dialogue_id = msg.dialogue_id;
    speaker_actor_net_id = msg.speaker_actor_net_id;
    current_line = take 255 (text_or_empty text);
  };
}
  where
    open rt use {dialogue}

abbrev pub store_choice :
    MsgDialogueChoiceRecord × List ℕ → ProxyDialogueChoiceState → ProxyDialogueChoiceState
store_choice (m, text) s = record {
  choice_id = m.choice_id;
  enabled = m.enabled;
  text = take 255 text;
}

unfoldable pub proxy_set_dialogue_choices :
    MsgDialogueChoicesHeader → List (MsgDialogueChoiceRecord × List ℕ) → ProxyRuntime → ProxyRuntime
proxy_set_dialogue_choices h choices rt = record rt {
  dialogue = record dialogue {
    active = true;
    dialogue_id = h.dialogue_id;
    choice_count = at_most 12 h.choice_count;
    choices = store_first store_choice (at_most 12 h.choice_count) choices dialogue.choices;
  };
}
  where
    open rt use {dialogue}

unfoldable pub proxy_note_dialogue_select : MsgDialogueSelect → ProxyRuntime → ProxyRuntime
proxy_note_dialogue_select msg rt =
    if dialogue.active && dialogue.dialogue_id == msg.dialogue_id
    then record rt { dialogue = record dialogue { last_selected_choice_id = msg.choice_id } }
    else rt
  where
    open rt use {dialogue}

unfoldable pub proxy_set_dialogue_close : MsgDialogueClose → ProxyRuntime → ProxyRuntime
proxy_set_dialogue_close msg rt =
    if dialogue.dialogue_id == msg.dialogue_id
    then record rt {
      dialogue = record dialogue {
        active = false;
        close_reason = msg.reason;
        choice_count = 0;
        current_line = [];
      };
    }
    else rt
  where
    open rt use {dialogue}

abbrev pub store_objective :
    MsgQuestObjectiveRecord × List ℕ → ProxyQuestObjectiveState → ProxyQuestObjectiveState
store_objective (m, text) s = record {
  objective_id = m.objective_id;
  state = m.state;
  text = take 255 text;
}

unfoldable pub proxy_set_quest_update :
    MsgQuestUpdateHeader → List (MsgQuestObjectiveRecord × List ℕ) → ProxyRuntime → ProxyRuntime
proxy_set_quest_update h objs rt = record rt {
  quest = record zero_proxy_quest_state {
    loaded = true;
    quest_id = h.quest_id;
    stage = h.stage;
    tracked = h.tracked;
    objective_count = at_most 16 h.objective_count;
    objectives =
        store_first store_objective (at_most 16 h.objective_count) objs
          zero_proxy_quest_state.objectives;
  };
}
