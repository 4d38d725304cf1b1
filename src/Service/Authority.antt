-- ===== src/Service/Authority.antt =====
-- service/src/authority_core.c. The two static counters and the whitelist stand beside the session.
pub mod Build
pub mod Fire
use Prim.Native.Nat.{bit_xor}
use f4mp.Base.{
  ℕ, zero, suc, ◌+◌, ◌-◌, ◌%◌, ◌^◌, Bool, true, false, not, ◌&&◌, ◌||◌, Option, none, some, List,
  [], ◌∷◌, ◌==◌, ltb, leb, if◌then◌else◌,
}
use f4mp.Messages.Types.{Vec3f, Rot3f}
use f4mp.Messages.Player.{MsgInputState}
use f4mp.Messages.Combat.{MsgFireIntent, MsgDamageResult, MsgDeathEvent}
use f4mp.Messages.Workshop.{
  MsgBuildRequest, MsgBuildResult, MsgObjectMoveRequest, MsgObjectScrapRequest,
}
use f4mp.Service.State.{
  SessionState, PlayerRuntimeState, ActorRuntimeState, ObjectRuntimeState, SettlementState,
}
use f4mp.Service.Slots.{is_some, find_first, update_first}
use f4mp.Service.Store.{
  find_player, find_actor, find_object, find_settlement, with_player, with_object, with_settlement,
  ws_alloc_actor, ws_alloc_object, ws_remove_object, is_actor,
}
use f4mp.Service.Zero.{zero_actor, max_actors_per_session}
use f4mp.Service.Quest.{has_bit}
use f4mp.Service.Floats.{Floats}
use f4mp.Service.Geometry.{av_default_combat_geometry, cg_normalize, cg_target_within_cone}
use f4mp.Service.Validation.{
  Whitelist, validate_build_request, validate_fire_intent, validate_object_move_request,
  validate_object_scrap_request,
}

pub record Authority : Type 0 where
  pub session : SessionState
  pub next_object_id : ℕ
  pub next_actor_id : ℕ
  pub whitelist : Whitelist

abbrev pub actf_hostile : ℕ
actf_hostile = 1

abbrev pub actf_dead : ℕ
actf_dead = 2

abbrev pub objf_placed_by_player : ℕ
objf_placed_by_player = 1

abbrev pub objf_moved : ℕ
objf_moved = 2

-- `x |= 1 << k`
abbrev pub set_bit : ℕ → ℕ → ℕ
set_bit x power = if has_bit x power then x else x + power

unfoldable pub ac_handle_input_state : SessionState → MsgInputState → ℕ → Bool × SessionState
ac_handle_input_state s msg player_id =
    if is_some (find_player s player_id)
    then (
      true,
      with_player s player_id (λ p. record p {
        last_input_tick = msg.client_tick;
        replicated_state = record (p.replicated_state) { equipped_form_id = msg.equipped_form_id };
        profile_snapshot = record (p.profile_snapshot) { equipped_form_id = msg.equipped_form_id };
      }),
    )
    else (false, s)

-- A hostile creature at full health, 1.0f.
spawn_init : Vec3f → Rot3f → ActorRuntimeState → ActorRuntimeState
spawn_init position rotation a = record a {
  replicated_state = record (a.replicated_state) {
    actor_net_id = a.actor_net_id;
    position = position;
    rotation = rotation;
    health_norm = 0x3f80_0000;
    actor_flags = actf_hostile;
  };
}

unfoldable pub ac_spawn_hostile_actor : Authority → ℕ → Vec3f → Rot3f → Bool × Authority
unfolding spawn_init
ac_spawn_hostile_actor w base_form_id position rotation =
    let (ok, s) =
      ws_alloc_actor w.session w.next_actor_id base_form_id 1 (spawn_init position rotation) in
    (ok, record w { session = s; next_actor_id = (w.next_actor_id + 1) % 2 ^ 32 })

-- A target that can be shot: in use, hostile, not dead.
unfoldable pub is_target : ActorRuntimeState → Bool
is_target a =
    a.in_use
    && not (has_bit a.replicated_state.actor_flags actf_dead)
    && has_bit a.replicated_state.actor_flags actf_hostile

-- The slot and the score of the best target so far.
abbrev pub Best : Type 0
Best = Option (ℕ × ℕ)

pub record FireResult : Type 0 where
  pub session : SessionState
  pub damage : MsgDamageResult
  pub death : Option MsgDeathEvent

-- A write to `s->actors[i]`.
unfoldable pub update_at {ℓ} : {A : Type ℓ} → ℕ → (A → A) → List A → List A
update_at i f [] = []
update_at zero f (x ∷ xs) = f x ∷ xs
update_at (suc i) f (x ∷ xs) = x ∷ update_at i f xs

unfoldable pub get_elem? {ℓ} : {A : Type ℓ} → List A → ℕ → Option A
get_elem? [] i = none
get_elem? (x ∷ xs) zero = some x
get_elem? (x ∷ xs) (suc i) = get_elem? xs i

module _ (F : Floats) where
  open F use {sub, lt, le}

  -- One round of the loop over the actors, at slot `i`.
  unfoldable pub consider : Vec3f → Vec3f → ℕ → ActorRuntimeState → Best → Best
  unfolding is_target
  consider origin dir i a best =
      if is_target a
      then elim (cg_target_within_cone F origin dir a.replicated_state.position
          av_default_combat_geometry) [
            | none ↦ best
            | some score ↦ elim best [
              | none ↦ some (i, score)
              | some (j, best_score) ↦
                  if lt best_score score then some (i, score) else some (j, best_score)
            ]
          ]
      else best

  unfoldable pub best_target : Vec3f → Vec3f → ℕ → List ActorRuntimeState → Best → Best
  unfolding consider
  best_target origin dir i [] best = best
  best_target origin dir i (a ∷ rest) best =
      best_target origin dir (suc i) rest (consider origin dir i a best)

  -- `health_norm -= 0.25f`, and not below 0.0f.
  unfoldable pub health_after : ℕ → ℕ
  health_after h = let h' = sub h 0x3e80_0000 in if lt h' 0 then 0 else h'

  unfoldable pub hit : ActorRuntimeState → ActorRuntimeState
  unfolding health_after
  hit a =
      let h = health_after a.replicated_state.health_norm in
      record a {
        replicated_state = record (a.replicated_state) {
          health_norm = h;
          actor_flags =
              if le h 0
              then set_bit a.replicated_state.actor_flags actf_dead
              else a.replicated_state.actor_flags;
        };
      }

  damage_of : MsgFireIntent → ActorRuntimeState → MsgDamageResult
  damage_of msg a =
      let h = health_after a.replicated_state.health_norm in
      record {
        attacker_id = msg.player_id;
        victim_actor_net_id = a.actor_net_id;
        damage_amount = 0x3e80_0000;
        damage_type = 0;
        reserved0 = 0;
        flags = if le h 0 then 32 else 0;
        health_after = h;
      }

  death_of : MsgFireIntent → ActorRuntimeState → Option MsgDeathEvent
  death_of msg a =
      if le (health_after a.replicated_state.health_norm) 0
      then some (record {
        victim_actor_net_id = a.actor_net_id;
        killer_id = msg.player_id;
        ragdoll_seed = bit_xor a.actor_net_id 0xa5a5_a5a5;
      })
      else none

  shoot : SessionState → MsgFireIntent → MsgDamageResult → Best → FireResult
  unfolding hit damage_of death_of update_at get_elem?
  shoot s msg damage none = record { session = s; damage = damage; death = none }
  shoot s msg damage (some (i, score)) =
      if le score 0xc47a_0000
      then record { session = s; damage = damage; death = none }
      else elim (get_elem? s.actors i) [
        | none ↦ record { session = s; damage = damage; death = none }
        | some a ↦ record {
          session = record s { actors = update_at i hit s.actors };
          damage = damage_of msg a;
          death = death_of msg a;
        }
      ]

  -- `none` where the function returns false. `damage` is what the caller put in `*out_damage`.
  unfoldable pub ac_handle_fire_intent :
      SessionState → MsgFireIntent → MsgDamageResult → Option FireResult
  unfolding shoot best_target
  ac_handle_fire_intent s msg damage =
      if validate_fire_intent F s msg
      then some (
          shoot s msg damage
            (best_target msg.origin (cg_normalize F msg.direction).1 0 s.actors none))
      else none

  built : MsgBuildRequest → ObjectRuntimeState → ObjectRuntimeState
  built msg o = record o {
    position = msg.position;
    rotation = msg.rotation;
    owner_player_id = msg.player_id;
    state_flags = objf_placed_by_player;
  }

  unfoldable pub build_denied : MsgBuildRequest → ℕ → MsgBuildResult
  build_denied msg reason = record {
    request_id = msg.request_id;
    accepted = 0;
    reason = reason;
    reserved0 = 0;
    object_net_id = 0;
  }

  unfoldable pub ac_handle_build_request : Authority → MsgBuildRequest → MsgBuildResult × Authority
  unfolding built build_denied
  ac_handle_build_request w msg =
      let (ok, s) =
        ws_alloc_object w.session w.next_object_id msg.form_id msg.settlement_id (built msg) in
      let w' = record w { next_object_id = (w.next_object_id + 1) % 2 ^ 32 } in
      if not (validate_build_request F w.whitelist w.session msg)
      then (build_denied msg 1, w)
      else if not ok
      then (build_denied msg 5, w')
      else (
        record {
          request_id = msg.request_id;
          accepted = 1;
          reason = 0;
          reserved0 = 0;
          object_net_id = w.next_object_id;
        },
        record w' {
          session =
              with_settlement s msg.settlement_id
                (λ t. record t { object_count = (t.object_count + 1) % 2 ^ 32 });
        },
      )

  unfoldable pub ac_handle_object_move : SessionState → MsgObjectMoveRequest → Bool × SessionState
  ac_handle_object_move s msg =
      if validate_object_move_request F s msg
      then (
        true,
        with_object s msg.object_net_id (λ o. record o {
          position = msg.position;
          rotation = msg.rotation;
          state_flags = set_bit o.state_flags objf_moved;
        }),
      )
      else (false, s)

unfoldable pub ac_handle_object_scrap : SessionState → MsgObjectScrapRequest → Bool × SessionState
ac_handle_object_scrap s msg =
    if not (validate_object_scrap_request s msg)
    then (false, s)
    else elim (find_object s msg.object_net_id) [
      | none ↦ (false, s)
      | some o ↦ (
        true,
        ws_remove_object
            (with_settlement s o.settlement_id (λ t. record t {
              object_count = if ltb 0 t.object_count then t.object_count - 1 else t.object_count;
            }))
            msg.object_net_id,
      )
    ]

-- One round of ac_tick, at slot `i`; ws_remove_actor clears the first actor of that id.
tick_at : ℕ → List ActorRuntimeState → List ActorRuntimeState
unfolding update_at get_elem?
tick_at i actors = elim (get_elem? actors i) [
  | none ↦ actors
  | some a ↦
      if a.in_use && has_bit a.replicated_state.actor_flags actf_dead
      then (if a.pending_despawn
          then update_first (is_actor a.actor_net_id) (λ _. zero_actor) actors
          else update_at i (λ x. record x { pending_despawn = true }) actors)
      else actors
]

-- Slots `i` to `i + n - 1`.
unfoldable pub tick_from : ℕ → ℕ → List ActorRuntimeState → List ActorRuntimeState
unfolding tick_at
tick_from zero i actors = actors
tick_from (suc n) i actors = tick_from n (suc i) (tick_at i actors)

unfoldable pub ac_tick : SessionState → SessionState
unfolding tick_from
ac_tick s = record s { actors = tick_from max_actors_per_session 0 s.actors }
