-- ===== src/Service/Sessions.antt =====
-- service/src/session_manager.c (the players of one session) and session_registry.c.
pub mod Registry
use f4mp.Base.{
  ℕ, Bool, true, false, ◌&&◌, not, Option, none, some, List, [], ◌∷◌, ◌==◌, if◌then◌else◌, take,
  replicate,
}
use mathlib.Core.Option
use f4mp.Service.State.{PlayerRuntimeState, SessionState}
use f4mp.Service.Slots.{find_first, update_first, is_some}
use f4mp.Service.Store.{ws_alloc_player}

unfoldable pub sm_join_session : SessionState → ℕ → ℕ → Bool × SessionState
sm_join_session s player_id connection_id = ws_alloc_player s player_id connection_id

-- These two loops test the id alone, and not `connected`.
unfoldable pub has_player_id : ℕ → PlayerRuntimeState → Bool
has_player_id player_id p = p.player_id == player_id

unfoldable pub sm_remove_player : SessionState → ℕ → Bool × SessionState
sm_remove_player s player_id =
    if is_some (find_first (has_player_id player_id) s.players)
    then (
      true,
      record s {
        players =
            update_first (has_player_id player_id)
              (λ p. record p { connected = false; connection_id = 0 }) s.players;
      },
    )
    else (false, s)

unfoldable pub sm_reconnect_player : SessionState → ℕ → ℕ → Bool × SessionState
sm_reconnect_player s player_id connection_id =
    if is_some (find_first (has_player_id player_id) s.players)
    then (
      true,
      record s {
        players =
            update_first (has_player_id player_id)
              (λ p. record p { connected = true; connection_id = connection_id }) s.players;
      },
    )
    else (false, s)

pub record SessionRegistryEntry : Type 0 where
  pub in_use : Bool
  pub player_guid : List ℕ
  pub player_id : ℕ

abbrev pub Registry : Type 0
Registry = List SessionRegistryEntry

abbrev pub zero_entry : SessionRegistryEntry
zero_entry = record { in_use = false; player_guid = []; player_id = 0 }

unfoldable pub sr_init : Registry
sr_init = replicate 32 zero_entry

-- `strcmp(a, b) == 0`
unfoldable pub same_string : List ℕ → List ℕ → Bool
same_string [] [] = true
same_string [] (b ∷ bs) = false
same_string (a ∷ rest) [] = false
same_string (a ∷ rest) (b ∷ bs) = a == b && same_string rest bs

unfoldable pub has_guid : List ℕ → SessionRegistryEntry → Bool
has_guid player_guid e = e.in_use && same_string e.player_guid player_guid

unfoldable pub free_entry : SessionRegistryEntry → Bool
free_entry e = not e.in_use

unfoldable pub sr_find_player_id : Registry → List ℕ → Option ℕ
sr_find_player_id g player_guid =
    Option.map (λ e. e.player_id) (find_first (has_guid player_guid) g)

-- `strncpy` moves 63 bytes at most into `char player_guid[64]`; a free entry is all zero.
unfoldable pub sr_bind_player : Registry → List ℕ → ℕ → Registry
sr_bind_player g [] player_id = g
sr_bind_player g (c ∷ cs) player_id =
    if is_some (find_first (has_guid (c ∷ cs)) g)
    then update_first (has_guid (c ∷ cs)) (λ e. record e { player_id = player_id }) g
    else update_first free_entry
        (λ e. record e { in_use = true; player_guid = take 63 (c ∷ cs); player_id = player_id }) g

unfoldable pub sr_unbind_player : Registry → List ℕ → Registry
sr_unbind_player g player_guid = update_first (has_guid player_guid) (λ _. zero_entry) g
