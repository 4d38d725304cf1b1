-- ===== src/Service/Store.antt =====
-- service/src/service_indices.c, world_state_store.c and world_trace_provider.c. The session pointer is
-- never null.
use f4mp.Base.{
  ℕ, ◌+◌, ◌-◌, ◌%◌, ◌^◌, Bool, true, false, not, ◌&&◌, Option, none, some, ◌==◌, ltb, if◌then◌else◌,
  replicate,
}
use f4mp.Messages.Types.{Vec3f}
use f4mp.Service.State.{
  PlayerRuntimeState, ActorRuntimeState, ObjectRuntimeState, SettlementState, SessionState,
  WorldTraceProvider,
}
use f4mp.Service.Zero.{
  zero_player, zero_actor, zero_object, zero_settlement, zero_dialogue, zero_quest, zero_bubble,
  max_players_per_session, max_actors_per_session, max_objects_per_session, max_settlements,
}
use f4mp.Service.Slots.{find_first, update_first, is_some}

-- The tests of the loops of service_indices.c.
unfoldable pub is_player : ℕ → PlayerRuntimeState → Bool
is_player player_id p = p.connected && p.player_id == player_id

unfoldable pub is_actor : ℕ → ActorRuntimeState → Bool
is_actor actor_net_id a = a.in_use && a.actor_net_id == actor_net_id

unfoldable pub is_object : ℕ → ObjectRuntimeState → Bool
is_object object_net_id o = o.in_use && o.object_net_id == object_net_id

unfoldable pub is_settlement : ℕ → SettlementState → Bool
is_settlement settlement_id t = t.in_use && t.settlement_id == settlement_id

unfoldable pub find_player : SessionState → ℕ → Option PlayerRuntimeState
find_player s player_id = find_first (is_player player_id) s.players

unfoldable pub find_actor : SessionState → ℕ → Option ActorRuntimeState
find_actor s actor_net_id = find_first (is_actor actor_net_id) s.actors

unfoldable pub find_object : SessionState → ℕ → Option ObjectRuntimeState
find_object s object_net_id = find_first (is_object object_net_id) s.objects

unfoldable pub find_settlement : SessionState → ℕ → Option SettlementState
find_settlement s settlement_id = find_first (is_settlement settlement_id) s.settlements

-- A write through the pointer that a find returned.
unfoldable pub with_player :
    SessionState → ℕ → (PlayerRuntimeState → PlayerRuntimeState) → SessionState
with_player s player_id f = record s { players = update_first (is_player player_id) f s.players }

unfoldable pub with_object :
    SessionState → ℕ → (ObjectRuntimeState → ObjectRuntimeState) → SessionState
with_object s object_net_id f = record s {
  objects = update_first (is_object object_net_id) f s.objects;
}

unfoldable pub with_settlement :
    SessionState → ℕ → (SettlementState → SettlementState) → SessionState
with_settlement s settlement_id f = record s {
  settlements = update_first (is_settlement settlement_id) f s.settlements;
}

unfoldable pub wtp_init : WorldTraceProvider
wtp_init = record { trace_fn = none; default_clear_when_unset = true }

-- The callback is handed `{ blocked = false, hit_fraction = 1.0f }`.
unfoldable pub wtp_trace_allows : WorldTraceProvider → Vec3f → Vec3f → Bool
wtp_trace_allows p origin target = elim p.trace_fn [
  | none ↦ p.default_clear_when_unset
  | some f ↦
      let (called, hit) =
        f origin target (record { blocked = false; hit_fraction = 0x3f80_0000 }) in
      called && not hit.blocked
]

unfoldable pub ws_init_session : ℕ → ℕ → ℕ → SessionState
unfolding wtp_init
ws_init_session session_id rules tick_rate = record {
  in_use = true;
  session_id = session_id;
  rules = rules;
  tick_rate = tick_rate;
  session_seed = 0;
  host_player_id = 0;
  connected_count = 0;
  bubble = zero_bubble;
  trace_provider = wtp_init;
  dialogue = zero_dialogue;
  quest = zero_quest;
  players = replicate max_players_per_session zero_player;
  actors = replicate max_actors_per_session zero_actor;
  objects = replicate max_objects_per_session zero_object;
  settlements = replicate max_settlements zero_settlement;
}

-- Each allocator takes the first free slot; `false` stands for the null pointer.
unfoldable pub free_player : PlayerRuntimeState → Bool
free_player p = not p.connected

unfoldable pub free_actor : ActorRuntimeState → Bool
free_actor a = not a.in_use

unfoldable pub free_object : ObjectRuntimeState → Bool
free_object o = not o.in_use

unfoldable pub free_settlement : SettlementState → Bool
free_settlement t = not t.in_use

unfoldable pub ws_alloc_player : SessionState → ℕ → ℕ → Bool × SessionState
unfolding free_player
ws_alloc_player s player_id connection_id =
    if is_some (find_first free_player s.players)
    then (
      true,
      record s {
        players = update_first free_player (λ _. slot) s.players;
        connected_count = (s.connected_count + 1) % 2 ^ 16;
      },
    )
    else (false, s)
  where
    slot : PlayerRuntimeState
    slot = record zero_player {
      connected = true;
      player_id = player_id;
      connection_id = connection_id;
    }

-- The writes that a caller makes to the new slot come with the allocation, as `init`.
unfoldable pub ws_alloc_actor :
    SessionState → ℕ → ℕ → ℕ → (ActorRuntimeState → ActorRuntimeState) → Bool × SessionState
unfolding free_actor
ws_alloc_actor s actor_net_id base_form_id actor_kind init =
    if is_some (find_first free_actor s.actors)
    then (true, record s { actors = update_first free_actor (λ _. init slot) s.actors })
    else (false, s)
  where
    slot : ActorRuntimeState
    slot = record zero_actor {
      in_use = true;
      actor_net_id = actor_net_id;
      base_form_id = base_form_id;
      actor_kind = actor_kind;
      authority_owned_by_host = true;
    }

unfoldable pub ws_alloc_object :
    SessionState → ℕ → ℕ → ℕ → (ObjectRuntimeState → ObjectRuntimeState) → Bool × SessionState
unfolding free_object
ws_alloc_object s object_net_id form_id settlement_id init =
    if is_some (find_first free_object s.objects)
    then (true, record s { objects = update_first free_object (λ _. init slot) s.objects })
    else (false, s)
  where
    slot : ObjectRuntimeState
    slot = record zero_object {
      in_use = true;
      object_net_id = object_net_id;
      form_id = form_id;
      settlement_id = settlement_id;
    }

unfoldable pub ws_alloc_settlement : SessionState → ℕ → Vec3f → ℕ → ℕ → Bool × SessionState
unfolding free_settlement
ws_alloc_settlement s settlement_id center radius budget =
    if is_some (find_first free_settlement s.settlements)
    then (true, record s { settlements = update_first free_settlement (λ _. slot) s.settlements })
    else (false, s)
  where
    slot : SettlementState
    slot = record zero_settlement {
      in_use = true;
      settlement_id = settlement_id;
      center = center;
      allowed_radius = radius;
      object_budget = budget;
    }

unfoldable pub ws_remove_player : SessionState → ℕ → SessionState
ws_remove_player s player_id =
    if is_some (find_player s player_id)
    then record (with_player s player_id (λ _. zero_player)) {
      connected_count =
          if ltb 0 s.connected_count then s.connected_count - 1 else s.connected_count;
    }
    else s

unfoldable pub ws_remove_actor : SessionState → ℕ → SessionState
ws_remove_actor s actor_net_id = record s {
  actors = update_first (is_actor actor_net_id) (λ _. zero_actor) s.actors;
}

unfoldable pub ws_remove_object : SessionState → ℕ → SessionState
ws_remove_object s object_net_id = with_object s object_net_id (λ _. zero_object)
