-- ===== src/Client/Runtime/Runs.antt =====
-- Calls of plugin/src/proxy_runtime.c in any order, from the start on.
use mathlib.Core.Path.{ap₂}
use f4mp.Base.{
  ℕ, zero, suc, ◌≡◌, ◌∙◌, ap, refl, fun_ext, Bool, false, none, List, [], ◌∷◌, arith, replicate,
  length-replicate,
}
use f4mp.Service.Floats.{Floats}
use f4mp.Service.Slots.{count_if, find_first}
use f4mp.Client.Table.{Keyed, get, used_count, holds}
use f4mp.Client.Table.Model.{Model, view}
use f4mp.Client.Table.Laws.{IsTable}
use f4mp.Client.Records.{
  ProxyActorRecord, ProxyObjectRecord, ProxyRuntime, player_keyed, actor_keyed, object_keyed,
  zero_proxy_player_record, zero_proxy_actor_record, zero_proxy_object_record,
  plugin_max_proxy_players, plugin_max_proxy_actors, plugin_max_proxy_objects,
}
use f4mp.Client.Runtime.{proxy_runtime_init}
use f4mp.Client.Runtime.Refines.{
  ProxyCommand, ProxyModel, shown, IsRuntime, step, model_step, step-Follows,
}

-- No map has an entry.
abbrev pub empty : {A : Type 0} → Model A
empty = record { entries = λ id. none; size = 0 }

abbrev pub no_proxies : ProxyModel
no_proxies = record { players = empty; actors = empty; objects = empty }

module _ {A : Type 0} ⦃k : Keyed A⦄ (zero_slot : A) (unused : k.in_use zero_slot ≡ false) where
  holds-replicate : (id n : ℕ) → count_if (holds id) (replicate n zero_slot) ≡ 0
  unfolding count_if
  holds-replicate id zero = refl
  holds-replicate id (suc n) = ground (arith, holds-replicate id n)

  get-replicate : (id n : ℕ) → get id (replicate n zero_slot) ≡ none
  unfolding get find_first
  get-replicate id zero = refl
  get-replicate id (suc n) = ground (arith, get-replicate id n)

  count-replicate : (n : ℕ) → used_count (replicate n zero_slot) ≡ 0
  unfolding used_count count_if
  count-replicate zero = refl
  count-replicate (suc n) = ground (arith, count-replicate n)

  view-replicate : (n : ℕ) → view (replicate n zero_slot) ≡ empty
  unfolding view
  view-replicate n =
      ap₂ (λ e s. record { entries = e; size = s }) (fun_ext λ id. get-replicate id n)
        (count-replicate n)

  replicate-IsTable : (n : ℕ) → IsTable (replicate n zero_slot)
  replicate-IsTable n = λ id. omega (arith, holds-replicate id n)

proxy_runtime_init-IsRuntime : IsRuntime proxy_runtime_init
unfolding proxy_runtime_init player_keyed actor_keyed object_keyed
proxy_runtime_init-IsRuntime = record {
  players = replicate-IsTable zero_proxy_player_record refl plugin_max_proxy_players;
  players_length = length-replicate plugin_max_proxy_players zero_proxy_player_record;
  actors = replicate-IsTable zero_proxy_actor_record refl plugin_max_proxy_actors;
  actors_length = length-replicate plugin_max_proxy_actors zero_proxy_actor_record;
  objects = replicate-IsTable zero_proxy_object_record refl plugin_max_proxy_objects;
  objects_length = length-replicate plugin_max_proxy_objects zero_proxy_object_record;
}

shown-proxy_runtime_init : shown proxy_runtime_init ≡ no_proxies
unfolding shown proxy_runtime_init player_keyed actor_keyed object_keyed
shown-proxy_runtime_init =
    ap₂
      (λ a (bc : Model ProxyActorRecord × Model ProxyObjectRecord). record {
        players = a;
        actors = bc.0;
        objects = bc.1;
      })
      (view-replicate zero_proxy_player_record refl plugin_max_proxy_players)
      (ap₂ (λ b c. (b, c)) (view-replicate zero_proxy_actor_record refl plugin_max_proxy_actors)
        (view-replicate zero_proxy_object_record refl plugin_max_proxy_objects))

module _ (F : Floats) where
  unfoldable pub run : List ProxyCommand → ProxyRuntime → List Bool × ProxyRuntime
  run [] rt = ([], rt)
  run (c ∷ cs) rt = let (ok, rt') = step F c rt in let (oks, rt'') = run cs rt' in (ok ∷ oks, rt'')

  unfoldable pub replay : List ProxyCommand → ProxyModel → List Bool × ProxyModel
  replay [] m = ([], m)
  replay (c ∷ cs) m =
      let (ok, m') = model_step F c m in let (oks, m'') = replay cs m' in (ok ∷ oks, m'')

  run-Follows :
      (cs : List ProxyCommand) (rt : ProxyRuntime)
      → IsRuntime rt
      → ((run cs rt).0 ≡ (replay cs (shown rt)).0)
        × (shown (run cs rt).1 ≡ (replay cs (shown rt)).1)
        × IsRuntime (run cs rt).1
  unfolding run replay
  run-Follows [] rt v = (refl, refl, v)
  run-Follows (c ∷ cs) rt v =
      let h = step-Follows F c rt v in
      let (results, state, valid) = run-Follows cs (step F c rt).1 h.valid in
      (
        ap₂ (λ o os. o ∷ os) h.result (results ∙ ap (λ m. (replay cs m).0) h.state),
        state ∙ ap (λ m. (replay cs m).1) h.state,
        valid,
      )

  -- From the start on, spawns, updates and despawns of players, actors and objects, in whatever order,
  -- return what the same calls return on three empty maps, of at most 8, 128 and 256 entries, and the
  -- tables then show these maps: a spawn is refused exactly when its map is full without that id, an
  -- update and a despawn exactly when the id is absent, and no call touches another id.
  pub run-proxy_runtime_init :
      (cs : List ProxyCommand)
      → ((run cs proxy_runtime_init).0 ≡ (replay cs no_proxies).0)
        × (shown (run cs proxy_runtime_init).1 ≡ (replay cs no_proxies).1)
  run-proxy_runtime_init cs =
      let (results, state, valid) =
        run-Follows cs proxy_runtime_init proxy_runtime_init-IsRuntime in
      (
        results ∙ ap (λ m. (replay cs m).0) shown-proxy_runtime_init,
        state ∙ ap (λ m. (replay cs m).1) shown-proxy_runtime_init,
      )
