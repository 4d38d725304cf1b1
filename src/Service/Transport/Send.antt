-- ===== src/Service/Transport/Send.antt =====
-- service/src/transport_loop.c: what is sent to one player and to all of them.
use f4mp.Base.{
  ℕ, ◌+◌, ◌-◌, Bool, true, false, Option, none, some, List, [], ◌∷◌, ◌++◌, ltb, if◌then◌else◌, take,
  map, replicate,
}
use f4mp.Wire.Writer.{W}
use f4mp.Messages.Control.{MsgProfileItemRecord, MsgProfilePerkRecord}
use f4mp.Messages.Actor.{MsgActorSpawn}
use f4mp.Messages.Combat.{MsgDamageResult, MsgDeathEvent}
use f4mp.Messages.Workshop.{MsgObjectSpawn}
use f4mp.Messages.Ui.{MsgDialogueOpen, MsgDialogueLine, MsgDialogueClose}
use f4mp.Codec.Control.{
  encode_msg_welcome, encode_msg_pong, encode_msg_profile_snapshot, encode_msg_profile_items,
  encode_msg_profile_perks, encode_msg_profile_appearance,
}
use f4mp.Codec.Player.{encode_msg_player_state, encode_msg_player_left}
use f4mp.Codec.Actor.{encode_msg_actor_spawn, encode_msg_actor_state, encode_msg_actor_despawn}
use f4mp.Codec.Combat.{encode_msg_damage_result, encode_msg_death_event}
use f4mp.Codec.Workshop.{
  encode_msg_object_spawn, encode_msg_object_update, encode_msg_object_despawn,
}
use f4mp.Codec.Ui.{encode_msg_dialogue_open, encode_msg_dialogue_line, encode_msg_dialogue_close}
use f4mp.Service.State.{
  PlayerRuntimeState, ActorRuntimeState, ObjectRuntimeState, PlayerProfileItemSnapshot,
  PlayerProfilePerkSnapshot, PlayerProfileSnapshot,
}
use f4mp.Service.Transport.{TransportLoopContext, tl_send_single}

-- MSGF_RELIABLE | MSGF_ORDERED, with the channel.
abbrev pub reliable : ℕ → ℕ
reliable channel = 3 + channel

abbrev pub ch0_control : ℕ
ch0_control = 0

abbrev pub ch1_world : ℕ
ch1_world = 0x100

abbrev pub ch2_combat : ℕ
ch2_combat = 0x200

abbrev pub ch3_work : ℕ
ch3_work = 0x300

abbrev pub ch4_ui : ℕ
ch4_ui = 0x400

abbrev zero_record_item : MsgProfileItemRecord
zero_record_item = record { form_id = 0; count = 0; equipped = 0; reserved0 = 0 ∷ 0 ∷ 0 ∷ [] }

abbrev zero_record_perk : MsgProfilePerkRecord
zero_record_perk = record { perk_form_id = 0; rank = 0; reserved0 = 0 ∷ 0 ∷ 0 ∷ [] }

-- The loop of each broadcast: one message to every connected player, whatever the sends return.
unfoldable pub send_all :
    List PlayerRuntimeState → ℕ → ℕ → W → TransportLoopContext → TransportLoopContext
send_all [] msg_type msg_flags enc ctx = ctx
send_all (p ∷ players) msg_type msg_flags enc ctx =
    send_all players msg_type msg_flags enc
      (if p.connected then (tl_send_single ctx p.connection_id msg_type msg_flags enc).1 else ctx)

unfoldable pub broadcast : TransportLoopContext → ℕ → ℕ → W → TransportLoopContext
broadcast ctx msg_type msg_flags enc = send_all ctx.session.players msg_type msg_flags enc ctx

unfoldable pub tl_broadcast_player_state :
    TransportLoopContext → PlayerRuntimeState → TransportLoopContext
tl_broadcast_player_state ctx player =
    broadcast ctx 0x0102 ch1_world (encode_msg_player_state player.replicated_state)

unfoldable pub tl_broadcast_player_left : TransportLoopContext → ℕ → TransportLoopContext
tl_broadcast_player_left ctx player_id =
    broadcast ctx 0x0105 (reliable ch1_world)
      (encode_msg_player_left (record { player_id = player_id; reserved = 0 }))

abbrev pub actor_spawn : ActorRuntimeState → MsgActorSpawn
actor_spawn a = record {
  actor_net_id = a.actor_net_id;
  base_form_id = a.base_form_id;
  position = a.replicated_state.position;
  rotation = a.replicated_state.rotation;
  actor_kind = a.actor_kind;
  reserved0 = 0;
  flags = a.spawn_flags;
}

unfoldable pub tl_broadcast_actor_spawn :
    TransportLoopContext → ActorRuntimeState → TransportLoopContext
tl_broadcast_actor_spawn ctx actor =
    broadcast ctx 0x0201 (reliable ch1_world) (encode_msg_actor_spawn (actor_spawn actor))

unfoldable pub tl_broadcast_actor_state :
    TransportLoopContext → ActorRuntimeState → TransportLoopContext
tl_broadcast_actor_state ctx actor =
    broadcast ctx 0x0202 ch1_world (encode_msg_actor_state actor.replicated_state)

unfoldable pub tl_broadcast_actor_despawn : TransportLoopContext → ℕ → ℕ → TransportLoopContext
tl_broadcast_actor_despawn ctx actor_net_id reason = broadcast ctx 0x0203 (reliable ch1_world) (
    encode_msg_actor_despawn
      (record { actor_net_id = actor_net_id; reason = reason; reserved0 = 0 ∷ 0 ∷ 0 ∷ [] }))

unfoldable pub tl_broadcast_damage : TransportLoopContext → MsgDamageResult → TransportLoopContext
tl_broadcast_damage ctx msg =
    broadcast ctx 0x0303 (reliable ch2_combat) (encode_msg_damage_result msg)

unfoldable pub tl_broadcast_death : TransportLoopContext → MsgDeathEvent → TransportLoopContext
tl_broadcast_death ctx msg = broadcast ctx 0x0304 (reliable ch2_combat) (encode_msg_death_event msg)

abbrev pub object_spawn : ObjectRuntimeState → MsgObjectSpawn
object_spawn o = record {
  object_net_id = o.object_net_id;
  form_id = o.form_id;
  position = o.position;
  rotation = o.rotation;
  state_flags = o.state_flags;
  reserved0 = 0;
}

unfoldable pub tl_broadcast_object_spawn :
    TransportLoopContext → ObjectRuntimeState → TransportLoopContext
tl_broadcast_object_spawn ctx obj =
    broadcast ctx 0x0403 (reliable ch3_work) (encode_msg_object_spawn (object_spawn obj))

unfoldable pub tl_broadcast_object_update :
    TransportLoopContext → ObjectRuntimeState → ℕ → TransportLoopContext
tl_broadcast_object_update ctx obj fields_mask = broadcast ctx 0x0406 (reliable ch3_work) (
    encode_msg_object_update (record {
      object_net_id = obj.object_net_id;
      fields_mask = fields_mask;
      position = obj.position;
      rotation = obj.rotation;
      state_flags = obj.state_flags;
      reserved0 = 0;
    }))

unfoldable pub tl_broadcast_object_despawn : TransportLoopContext → ℕ → ℕ → TransportLoopContext
tl_broadcast_object_despawn ctx object_net_id reason = broadcast ctx 0x0407 (reliable ch3_work) (
    encode_msg_object_despawn
      (record { object_net_id = object_net_id; reason = reason; reserved0 = 0 ∷ 0 ∷ 0 ∷ [] }))

unfoldable pub tl_broadcast_dialogue_open :
    TransportLoopContext → MsgDialogueOpen → TransportLoopContext
tl_broadcast_dialogue_open ctx msg =
    broadcast ctx 0x0501 (reliable ch4_ui) (encode_msg_dialogue_open msg)

-- The text goes through a `char[256]`; a null one leaves it empty.
unfoldable pub tl_broadcast_dialogue_line :
    TransportLoopContext → MsgDialogueLine → Option (List ℕ) → TransportLoopContext
tl_broadcast_dialogue_line ctx msg text =
    broadcast ctx 0x0502 (reliable ch4_ui)
      (encode_msg_dialogue_line msg (some (elim text [ none ↦ [] | some t ↦ take 255 t ])))

unfoldable pub tl_broadcast_dialogue_close :
    TransportLoopContext → MsgDialogueClose → TransportLoopContext
tl_broadcast_dialogue_close ctx msg =
    broadcast ctx 0x0505 (reliable ch4_ui) (encode_msg_dialogue_close msg)

unfoldable pub tl_send_pong : TransportLoopContext → ℕ → ℕ → Bool × TransportLoopContext
tl_send_pong ctx connection_id time_ms =
    tl_send_single ctx connection_id 0x0004 ch0_control
      (encode_msg_pong (record { time_ms = time_ms }))

unfoldable pub tl_send_welcome : TransportLoopContext → ℕ → ℕ → Bool × TransportLoopContext
tl_send_welcome ctx connection_id player_id =
    tl_send_single ctx connection_id 0x0002 (reliable ch0_control) (
      encode_msg_welcome (record {
        session_id = ctx.session.session_id;
        player_id = player_id;
        tick_rate = ctx.session.tick_rate;
        rules = ctx.session.rules;
      }))

-- `if (!a) return false;` and then `b`.
unfoldable pub and_next :
    Bool × TransportLoopContext
    → (TransportLoopContext → Bool × TransportLoopContext)
    → Bool × TransportLoopContext
and_next (true, ctx) next = next ctx
and_next (false, ctx) next = (false, ctx)

abbrev pub profile_items : PlayerProfileSnapshot → List MsgProfileItemRecord
profile_items s =
    let n = if ltb s.item_count 16 then s.item_count else 16 in
    map
      (λ (i : PlayerProfileItemSnapshot). record {
        form_id = i.form_id;
        count = i.count;
        equipped = i.equipped;
        reserved0 = 0 ∷ 0 ∷ 0 ∷ [];
      })
      (take n s.items)
    ++ replicate (16 - n) zero_record_item

abbrev pub profile_perks : PlayerProfileSnapshot → List MsgProfilePerkRecord
profile_perks s =
    let n = if ltb s.perk_count 16 then s.perk_count else 16 in
    map
      (λ (i : PlayerProfilePerkSnapshot). record {
        perk_form_id = i.perk_form_id;
        rank = i.rank;
        reserved0 = 0 ∷ 0 ∷ 0 ∷ [];
      })
      (take n s.perks)
    ++ replicate (16 - n) zero_record_perk

unfoldable pub tl_send_profile_snapshot :
    TransportLoopContext → ℕ → PlayerRuntimeState → Bool × TransportLoopContext
tl_send_profile_snapshot ctx connection_id player =
    let s = player.profile_snapshot in
    let flags = reliable ch0_control in
    and_next
      (tl_send_single ctx connection_id 0x0006 flags (
        encode_msg_profile_snapshot (record {
          level = s.level;
          xp = s.xp;
          equipped_form_id = s.equipped_form_id;
          caps = s.caps;
          str_stat = s.str_stat;
          per_stat = s.per_stat;
          end_stat = s.end_stat;
          cha_stat = s.cha_stat;
          int_stat = s.int_stat;
          agi_stat = s.agi_stat;
          luk_stat = s.luk_stat;
          reserved0 = 0;
        })))
      λ ctx₁.
        and_next
          (tl_send_single ctx₁ connection_id 0x0007 flags (
            encode_msg_profile_items (record { item_count = s.item_count; reserved0 = 0 })
              (profile_items s)))
          λ ctx₂.
            and_next
              (tl_send_single ctx₂ connection_id 0x0008 flags (
                encode_msg_profile_perks (record { perk_count = s.perk_count; reserved0 = 0 })
                  (profile_perks s)))
              λ ctx₃. tl_send_single ctx₃ connection_id 0x0009 flags (
                encode_msg_profile_appearance
                  (record { sex = s.sex; reserved0 = 0 ∷ 0 ∷ 0 ∷ []; body_preset = s.body_preset }))
