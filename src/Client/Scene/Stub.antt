-- ===== src/Client/Scene/Stub.antt =====
-- plugin/src/fo4_proxy_actor_backend_stub.c: a backend that only keeps what it was told.
use f4mp.Base.{ℕ, Bool, true, false, not, ◌||◌, Option, none, some, ◌==◌, if◌then◌else◌, replicate}
use f4mp.Client.Records.{ProxyPlayerSpawnSpec, ProxyPlayerUpdateSpec}
use f4mp.Client.Table.{get, find_slot, write_slot}
use f4mp.Client.Scene.Records.{
  Fo4ProxyBackendPlayerState, StubState, Act, stub_keyed, zero_fo4_proxy_backend_player_state,
}
use f4mp.Client.Scene.Driver.{next64}

unfoldable pub fo4_proxy_backend_stub_reset : StubState
fo4_proxy_backend_stub_reset = record {
  players = replicate 8 zero_fo4_proxy_backend_player_state;
  spawn_count = 0;
  update_count = 0;
  despawn_count = 0;
}

unfoldable pub stub_spawn : ProxyPlayerSpawnSpec → StubState → Bool × StubState
stub_spawn spec st = elim (find_slot spec.player_id st.players) [
  | none ↦ (false, st)
  | some s ↦ (
    true,
    record st {
      players =
          write_slot spec.player_id
            (λ _. record zero_fo4_proxy_backend_player_state {
              in_use = true;
              player_id = spec.player_id;
              spawn = spec;
            })
            st.players;
      spawn_count = next64 st.spawn_count;
    },
  )
]

-- `if (!s->in_use) { ... }`
abbrev adopt_stub : ℕ → Fo4ProxyBackendPlayerState → Fo4ProxyBackendPlayerState
adopt_stub player_id s =
    if s.in_use
    then s
    else record zero_fo4_proxy_backend_player_state { in_use = true; player_id = player_id }

unfoldable pub stub_update : ProxyPlayerUpdateSpec → StubState → Bool × StubState
stub_update spec st = elim (find_slot spec.player_id st.players) [
  | none ↦ (false, st)
  | some s ↦ (
    true,
    record st {
      players =
          write_slot spec.player_id (λ _. record (adopt_stub spec.player_id s) { update = spec })
            st.players;
      update_count = next64 st.update_count;
    },
  )
]

unfoldable pub stub_despawn : ℕ → StubState → Bool × StubState
stub_despawn player_id st = elim (find_slot player_id st.players) [
  | none ↦ (false, st)
  | some s ↦ if not s.in_use || not (s.player_id == player_id) then (false, st) else (
    true,
    record st {
      players = write_slot player_id (λ _. record s { despawned = true }) st.players;
      despawn_count = next64 st.despawn_count;
    },
  )
]

unfoldable pub fo4_proxy_backend_stub_get : StubState → ℕ → Option Fo4ProxyBackendPlayerState
fo4_proxy_backend_stub_get st player_id = get player_id st.players

abbrev pub on_stub : (StubState → Bool × StubState) → Act
on_stub f w = let (ok, st) = f w.stub in (ok, record w { stub = st })
