-- ===== src/Client/Runtime/Refines.antt =====
-- The tables of plugin/src/proxy_runtime.c as three finite maps of limited size.
use mathlib.Core.Path.{ap₂, ap}
use f4mp.Base.{ℕ, ◌≡◌, refl, fun_ext, Bool, List, arith, length}
use f4mp.Messages.Workshop.{MsgObjectSpawn, MsgObjectUpdate}
use f4mp.Service.Floats.{Floats}
use f4mp.Client.Table.{Keyed}
use f4mp.Client.Table.Model.{Model, put, change, clear, view}
use f4mp.Client.Table.Laws.{IsTable}
use f4mp.Client.Table.Refines.{Refines, put_slot-Refines, change_slot-Refines, clear_slot-Refines}
use f4mp.Client.Records.{
  ProxyPlayerSpawnSpec, ProxyPlayerUpdateSpec, ProxyActorSpawnSpec, ProxyActorUpdateSpec,
  ProxyPlayerRecord, ProxyActorRecord, ProxyObjectRecord, ProxyRuntime, ProxyDialogueState,
  player_keyed, actor_keyed, object_keyed, zero_proxy_player_record, zero_proxy_actor_record,
  zero_proxy_object_record, plugin_max_proxy_players, plugin_max_proxy_actors,
  plugin_max_proxy_objects,
}
use f4mp.Client.Runtime.{
  proxy_spawn_player, proxy_update_player, proxy_despawn_player, proxy_spawn_actor,
  proxy_despawn_actor, proxy_spawn_object, proxy_update_object, proxy_despawn_object,
  player_of_spawn, player_of_update, actor_of_spawn, object_of_spawn, object_of_update,
}
use f4mp.Client.Events.{proxy_update_actor, actor_of_update}

-- The calls that write the tables.
pub data ProxyCommand : Type 0 where
  spawn_player : ProxyPlayerSpawnSpec → ProxyCommand
  update_player : ProxyPlayerUpdateSpec → ProxyCommand
  despawn_player : ℕ → ProxyCommand
  spawn_actor : ProxyActorSpawnSpec → ProxyCommand
  update_actor : ProxyActorUpdateSpec → ProxyCommand
  despawn_actor : ℕ → ProxyCommand
  spawn_object : MsgObjectSpawn → ProxyCommand
  update_object : MsgObjectUpdate → ProxyCommand
  despawn_object : ℕ → ProxyCommand

-- What the tables stand for.
pub record ProxyModel : Type 0 where
  pub players : Model ProxyPlayerRecord
  pub actors : Model ProxyActorRecord
  pub objects : Model ProxyObjectRecord

unfoldable pub shown : ProxyRuntime → ProxyModel
shown rt = record { players = view rt.players; actors = view rt.actors; objects = view rt.objects }

-- No id twice, and the arrays have their sizes.
pub record IsRuntime (rt : ProxyRuntime) : Type 0 where
  pub players : IsTable rt.players
  pub players_length : length rt.players ≡ plugin_max_proxy_players
  pub actors : IsTable rt.actors
  pub actors_length : length rt.actors ≡ plugin_max_proxy_actors
  pub objects : IsTable rt.objects
  pub objects_length : length rt.objects ≡ plugin_max_proxy_objects

-- An operation on one of the maps.
abbrev on_players : Bool × Model ProxyPlayerRecord → ProxyModel → Bool × ProxyModel
on_players (ok, players) m = (ok, record m { players = players })

abbrev on_actors : Bool × Model ProxyActorRecord → ProxyModel → Bool × ProxyModel
on_actors (ok, actors) m = (ok, record m { actors = actors })

abbrev on_objects : Bool × Model ProxyObjectRecord → ProxyModel → Bool × ProxyModel
on_objects (ok, objects) m = (ok, record m { objects = objects })

-- The outcome of a call against that of the abstract one.
pub record Follows (r : Bool × ProxyRuntime) (s : Bool × ProxyModel) : Type 0 where
  pub result : r.0 ≡ s.0
  pub state : shown r.1 ≡ s.1
  pub valid : IsRuntime r.1

view-Refines :
    {A : Type 0} ⦃k : Keyed A⦄ (xs : List A) (r : Bool × List A) (s : Bool × Model A)
    → Refines xs r s
    → view r.1 ≡ s.1
unfolding view
view-Refines xs r s h = ap₂ (λ e n. record { entries = e; size = n }) (fun_ext h.entries) h.size

module _ (F : Floats) where
  unfoldable pub step : ProxyCommand → ProxyRuntime → Bool × ProxyRuntime
  step (spawn_player spec) rt = proxy_spawn_player spec rt
  step (update_player spec) rt = proxy_update_player spec rt
  step (despawn_player id) rt = proxy_despawn_player id rt
  step (spawn_actor spec) rt = proxy_spawn_actor spec rt
  step (update_actor spec) rt = proxy_update_actor F spec rt
  step (despawn_actor id) rt = proxy_despawn_actor id rt
  step (spawn_object msg) rt = proxy_spawn_object msg rt
  step (update_object msg) rt = proxy_update_object msg rt
  step (despawn_object id) rt = proxy_despawn_object id rt

  -- The same calls on the maps.
  unfoldable pub model_step : ProxyCommand → ProxyModel → Bool × ProxyModel
  model_step (spawn_player spec) m =
      on_players (put plugin_max_proxy_players spec.player_id (player_of_spawn spec) m.players) m
  model_step (update_player spec) m =
      on_players (change spec.player_id (player_of_update spec) m.players) m
  model_step (despawn_player id) m = on_players (clear id m.players) m
  model_step (spawn_actor spec) m =
      on_actors (put plugin_max_proxy_actors spec.actor_net_id (actor_of_spawn spec) m.actors) m
  model_step (update_actor spec) m =
      on_actors (change spec.actor_net_id (actor_of_update F spec) m.actors) m
  model_step (despawn_actor id) m = on_actors (clear id m.actors) m
  model_step (spawn_object msg) m =
      on_objects (put plugin_max_proxy_objects msg.object_net_id (object_of_spawn msg) m.objects) m
  model_step (update_object msg) m =
      on_objects (change msg.object_net_id (object_of_update msg) m.objects) m
  model_step (despawn_object id) m = on_objects (clear id m.objects) m

  players_Follows :
      (rt : ProxyRuntime) (d : ProxyDialogueState) (r : Bool × List ProxyPlayerRecord)
      (s : Bool × Model ProxyPlayerRecord)
      → Refines rt.players r s
      → IsRuntime rt
      → Follows (r.0, record rt { players = r.1; dialogue = d }) (on_players s (shown rt))
  unfolding shown
  players_Follows rt d r s h v = record {
    result = h.result;
    state = ap (λ a. record (shown rt) { players = a }) (view-Refines rt.players r s h);
    valid = record {
      players = h.table;
      players_length = omega (arith, h.sized, v.players_length);
      actors = v.actors;
      actors_length = v.actors_length;
      objects = v.objects;
      objects_length = v.objects_length;
    };
  }

  actors_Follows :
      (rt : ProxyRuntime) (d : ProxyDialogueState) (r : Bool × List ProxyActorRecord)
      (s : Bool × Model ProxyActorRecord)
      → Refines rt.actors r s
      → IsRuntime rt
      → Follows (r.0, record rt { actors = r.1; dialogue = d }) (on_actors s (shown rt))
  unfolding shown
  actors_Follows rt d r s h v = record {
    result = h.result;
    state = ap (λ a. record (shown rt) { actors = a }) (view-Refines rt.actors r s h);
    valid = record {
      players = v.players;
      players_length = v.players_length;
      actors = h.table;
      actors_length = omega (arith, h.sized, v.actors_length);
      objects = v.objects;
      objects_length = v.objects_length;
    };
  }

  objects_Follows :
      (rt : ProxyRuntime) (d : ProxyDialogueState) (r : Bool × List ProxyObjectRecord)
      (s : Bool × Model ProxyObjectRecord)
      → Refines rt.objects r s
      → IsRuntime rt
      → Follows (r.0, record rt { objects = r.1; dialogue = d }) (on_objects s (shown rt))
  unfolding shown
  objects_Follows rt d r s h v = record {
    result = h.result;
    state = ap (λ a. record (shown rt) { objects = a }) (view-Refines rt.objects r s h);
    valid = record {
      players = v.players;
      players_length = v.players_length;
      actors = v.actors;
      actors_length = v.actors_length;
      objects = h.table;
      objects_length = omega (arith, h.sized, v.objects_length);
    };
  }

  pub step-Follows :
      (c : ProxyCommand) (rt : ProxyRuntime)
      → IsRuntime rt
      → Follows (step c rt) (model_step c (shown rt))
  unfolding step model_step shown player_keyed actor_keyed object_keyed proxy_spawn_player
      proxy_update_player proxy_despawn_player proxy_spawn_actor proxy_update_actor
      proxy_despawn_actor proxy_spawn_object proxy_update_object proxy_despawn_object
  step-Follows (spawn_player spec) rt v =
      players_Follows rt rt.dialogue _ _
        (put_slot-Refines _ _ (player_of_spawn spec) rt.players v.players_length refl refl
          v.players)
        v
  step-Follows (update_player spec) rt v =
      players_Follows rt rt.dialogue _ _
        (change_slot-Refines _ (player_of_update spec) rt.players (λ b h. h) v.players) v
  step-Follows (despawn_player id) rt v =
      players_Follows rt rt.dialogue _ _
        (clear_slot-Refines id zero_proxy_player_record rt.players refl v.players) v
  step-Follows (spawn_actor spec) rt v =
      actors_Follows rt rt.dialogue _ _
        (put_slot-Refines _ _ (actor_of_spawn spec) rt.actors v.actors_length refl refl v.actors) v
  step-Follows (update_actor spec) rt v =
      actors_Follows rt rt.dialogue _ _
        (change_slot-Refines _ (actor_of_update F spec) rt.actors (λ b h. h) v.actors) v
  step-Follows (despawn_actor id) rt v =
      actors_Follows rt _ _ _
        (clear_slot-Refines id zero_proxy_actor_record rt.actors refl v.actors) v
  step-Follows (spawn_object msg) rt v =
      objects_Follows rt rt.dialogue _ _
        (put_slot-Refines _ _ (object_of_spawn msg) rt.objects v.objects_length refl refl v.objects)
        v
  step-Follows (update_object msg) rt v =
      objects_Follows rt rt.dialogue _ _
        (change_slot-Refines _ (object_of_update msg) rt.objects (λ b h. h) v.objects) v
  step-Follows (despawn_object id) rt v =
      objects_Follows rt rt.dialogue _ _
        (clear_slot-Refines id zero_proxy_object_record rt.objects refl v.objects) v
