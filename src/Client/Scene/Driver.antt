-- ===== src/Client/Scene/Driver.antt =====
-- plugin/src/fo4_proxy_actor_driver.c with its default driver, which is the only one that is installed.
use f4mp.Base.{
  ℕ, ◌+◌, ◌%◌, ◌^◌, Bool, true, false, not, ◌||◌, Option, none, some, ◌==◌, if◌then◌else◌,
  replicate,
}
use f4mp.Client.Table.{get, find_slot, write_slot}
use f4mp.Client.Scene.Records.{
  Fo4ProxyActorCreateSpec, Fo4ProxyActorMoveSpec, Fo4ProxyActorRotateSpec, Fo4ProxyActorState,
  FpadState, ProxyWorld, Act, driver_keyed, zero_fo4_proxy_actor_state, fpad_cmd_create,
  fpad_cmd_move, fpad_cmd_rotate, fpad_cmd_despawn,
}

-- `++x` of a uint32_t and of a 64-bit number.
abbrev pub next32 : ℕ → ℕ
next32 x = (x + 1) % 2 ^ 32

abbrev pub next64 : ℕ → ℕ
next64 x = (x + 1) % 2 ^ 64

unfoldable pub fpad_reset_default_driver : FpadState
fpad_reset_default_driver = record {
  players = replicate 8 zero_fo4_proxy_actor_state;
  create_count = 0;
  move_count = 0;
  rotate_count = 0;
  despawn_count = 0;
  total_command_sequence = 0;
  next_handle = 0;
}

-- `handle ? handle : ++g_fpad.next_handle`, with the counter after it.
unfoldable pub take_handle : ℕ → FpadState → ℕ × FpadState
take_handle handle st =
    if handle == 0
    then (next64 st.next_handle, record st { next_handle = next64 st.next_handle })
    else (handle, st)

-- `++g_fpad.total_command_sequence`, and the slot with its new content.
abbrev commit : ℕ → Fo4ProxyActorState → FpadState → FpadState
commit id s st = record st {
  players = write_slot id (λ _. record s { command_sequence = next }) st.players;
  total_command_sequence = next;
}
  where
    next : ℕ
    next = next32 st.total_command_sequence

unfoldable pub default_create_actor : Fo4ProxyActorCreateSpec → FpadState → Bool × FpadState
unfolding take_handle
default_create_actor spec st =
    let (handle, st') = take_handle spec.actor_handle st in
    if spec.player_id == 0 then (false, st) else elim (find_slot spec.player_id st.players) [
      | none ↦ (false, st)
      | some s ↦ (
        true,
        commit spec.player_id
            (record zero_fo4_proxy_actor_state {
              in_use = true;
              visible = true;
              player_id = spec.player_id;
              proxy_net_id = spec.proxy_net_id;
              proxy_base_form_id = spec.proxy_base_form_id;
              actor_handle = handle;
              position = spec.position;
              rotation = spec.rotation;
              equipped_form_id = spec.equipped_form_id;
              create_count = 1;
              last_command = fpad_cmd_create;
            })
            (record st' { create_count = next64 st'.create_count }),
      )
    ]

-- `if (!s->in_use) { ... }`: an actor that is moved before it was created.
unfoldable pub adopt : ℕ → ℕ → Fo4ProxyActorState → FpadState → Fo4ProxyActorState × FpadState
unfolding take_handle
adopt player_id handle s st =
    let (handle', st') = take_handle handle st in
    if s.in_use then (s, st) else (
      record zero_fo4_proxy_actor_state {
        in_use = true;
        visible = true;
        player_id = player_id;
        actor_handle = handle';
      },
      st',
    )

-- `if (spec->actor_handle) s->actor_handle = spec->actor_handle;`
abbrev given : ℕ → ℕ → ℕ
given handle old = if handle == 0 then old else handle

unfoldable pub default_move_actor : Fo4ProxyActorMoveSpec → FpadState → Bool × FpadState
default_move_actor spec st =
    if spec.player_id == 0 then (false, st) else elim (find_slot spec.player_id st.players) [
      | none ↦ (false, st)
      | some found ↦
          let (s, st') = adopt spec.player_id spec.actor_handle found st in
          (
            true,
            commit spec.player_id
                (record s {
                  position = spec.position;
                  velocity = spec.velocity;
                  stance = spec.stance;
                  anim_state = spec.anim_state;
                  equipped_form_id = spec.equipped_form_id;
                  actor_handle = given spec.actor_handle s.actor_handle;
                  despawned = false;
                  visible = true;
                  move_count = next32 s.move_count;
                  last_command = fpad_cmd_move;
                })
                (record st' { move_count = next64 st'.move_count }),
          )
    ]

unfoldable pub default_rotate_actor : Fo4ProxyActorRotateSpec → FpadState → Bool × FpadState
default_rotate_actor spec st =
    if spec.player_id == 0 then (false, st) else elim (find_slot spec.player_id st.players) [
      | none ↦ (false, st)
      | some found ↦
          let (s, st') = adopt spec.player_id spec.actor_handle found st in
          (
            true,
            commit spec.player_id
                (record s {
                  rotation = spec.rotation;
                  actor_handle = given spec.actor_handle s.actor_handle;
                  despawned = false;
                  visible = true;
                  rotate_count = next32 s.rotate_count;
                  last_command = fpad_cmd_rotate;
                })
                (record st' { rotate_count = next64 st'.rotate_count }),
          )
    ]

unfoldable pub default_despawn_actor : ℕ → FpadState → Bool × FpadState
default_despawn_actor player_id st =
    if player_id == 0 then (false, st) else elim (find_slot player_id st.players) [
      | none ↦ (false, st)
      | some s ↦ if not s.in_use || not (s.player_id == player_id) then (false, st) else (
        true,
        commit player_id
            (record s {
              visible = false;
              despawned = true;
              despawn_count = next32 s.despawn_count;
              last_command = fpad_cmd_despawn;
            })
            (record st { despawn_count = next64 st.despawn_count }),
      )
    ]

abbrev on_driver : (FpadState → Bool × FpadState) → Act
on_driver f w = let (ok, d) = f w.driver in (ok, record w { driver = d })

unfoldable pub fpad_create : Fo4ProxyActorCreateSpec → Act
fpad_create spec = on_driver (default_create_actor spec)

unfoldable pub fpad_move : Fo4ProxyActorMoveSpec → Act
fpad_move spec = on_driver (default_move_actor spec)

unfoldable pub fpad_rotate : Fo4ProxyActorRotateSpec → Act
fpad_rotate spec = on_driver (default_rotate_actor spec)

unfoldable pub fpad_despawn : ℕ → Act
fpad_despawn player_id = on_driver (default_despawn_actor player_id)

unfoldable pub fpad_get_state : ProxyWorld → ℕ → Option Fo4ProxyActorState
fpad_get_state w player_id = get player_id w.driver.players
