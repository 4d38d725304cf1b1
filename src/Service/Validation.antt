-- ===== src/Service/Validation.antt =====
-- service/src/authority_validation.c and the whitelist of workshop_whitelist.c.
use f4mp.Base.{ℕ, Bool, true, false, not, ◌&&◌, Option, none, some, List, ◌==◌, ltb, if◌then◌else◌}
use f4mp.Messages.Types.{Vec3f}
use f4mp.Messages.Combat.{MsgFireIntent}
use f4mp.Messages.Workshop.{MsgBuildRequest, MsgObjectMoveRequest, MsgObjectScrapRequest}
use f4mp.Service.State.{SessionState}
use f4mp.Service.Slots.{find_first, is_some}
use f4mp.Service.Store.{find_player, find_object, find_settlement}
use f4mp.Service.Quest.{has_bit}
use f4mp.Service.Floats.{Floats}
use f4mp.Service.Geometry.{
  distance_sq, sqrf, cg_normalize, los_policy_init, los_policy_set_provider, los_policy_allows,
}

pub record WorkshopWhitelistEntry : Type 0 where
  pub form_id : ℕ
  pub editor_id : List ℕ
  pub movable : Bool
  pub scrappable : Bool
  pub snap_enabled : Bool
  pub animated : Bool
  pub scripted : Bool

-- The first `g_entry_count` entries of `g_entries`.
abbrev pub Whitelist : Type 0
Whitelist = List WorkshopWhitelistEntry

unfoldable pub workshop_whitelist_lookup : Whitelist → ℕ → Option WorkshopWhitelistEntry
workshop_whitelist_lookup entries form_id =
    find_first (λ (e : WorkshopWhitelistEntry). e.form_id == form_id) entries

unfoldable pub workshop_whitelist_contains : Whitelist → ℕ → Bool
unfolding workshop_whitelist_lookup
workshop_whitelist_contains entries form_id = is_some (workshop_whitelist_lookup entries form_id)

abbrev pub rule_host_auth_combat : ℕ
rule_host_auth_combat = 4

abbrev pub rule_host_auth_workshop : ℕ
rule_host_auth_workshop = 8

unfoldable pub validate_player_connected : SessionState → ℕ → Bool
validate_player_connected s player_id = elim (find_player s player_id) [
  | none ↦ false
  | some p ↦ p.connected
]

module _ (F : Floats) where
  open F use {add, mul, lt, le}

  unfoldable pub validate_player_inside_bubble : SessionState → ℕ → Bool
  validate_player_inside_bubble s player_id = elim (find_player s player_id) [
    | none ↦ false
    | some p ↦
        p.connected
        && le (distance_sq F p.replicated_state.position s.bubble.center)
            (mul s.bubble.radius s.bubble.radius)
  ]

  -- `distance_sq(position, center) > radius * radius` fails a request.
  unfoldable pub in_settlement : Vec3f → Vec3f → ℕ → Bool
  in_settlement position center radius =
      not (lt (mul radius radius) (distance_sq F position center))

  -- `snap_target_net_id` is 0, or an object of the same settlement.
  unfoldable pub snap_valid : SessionState → MsgBuildRequest → Bool
  snap_valid s req =
      if req.snap_target_net_id == 0 then true else elim (find_object s req.snap_target_net_id) [
        | none ↦ false
        | some o ↦ o.in_use && o.settlement_id == req.settlement_id
      ]

  unfoldable pub validate_build_request : Whitelist → SessionState → MsgBuildRequest → Bool
  unfolding validate_player_connected in_settlement snap_valid
  validate_build_request whitelist s req =
      has_bit s.rules rule_host_auth_workshop
      && validate_player_connected s req.player_id
      && elim (find_settlement s req.settlement_id) [
        | none ↦ false
        | some t ↦
            t.in_use
            && ltb t.object_count t.object_budget
            && in_settlement req.position t.center t.allowed_radius
            && workshop_whitelist_contains whitelist req.form_id
            && snap_valid s req
      ]

  -- The end of the sight line: 1024.0f along the direction.
  unfoldable pub sight_end : Vec3f → Vec3f → Vec3f
  sight_end origin dir = record {
    x = add origin.x (mul dir.x 0x4480_0000);
    y = add origin.y (mul dir.y 0x4480_0000);
    z = add origin.z (mul dir.z 0x4480_0000);
  }

  unfoldable pub validate_fire_intent : SessionState → MsgFireIntent → Bool
  unfolding validate_player_connected validate_player_inside_bubble sight_end
  validate_fire_intent s req =
      let d = req.direction in
      let mag2 = add (add (sqrf F d.x) (sqrf F d.y)) (sqrf F d.z) in
      let (normal, dir) = cg_normalize F d in
      has_bit s.rules rule_host_auth_combat
      && validate_player_connected s req.player_id
      && validate_player_inside_bubble s req.player_id
      && not (req.weapon_form_id == 0)
      && not (lt mag2 0x38d1_b717)
      && normal
      && los_policy_allows (los_policy_set_provider los_policy_init (some s.trace_provider))
          req.origin (sight_end req.origin dir)

  unfoldable pub validate_object_move_request : SessionState → MsgObjectMoveRequest → Bool
  unfolding validate_player_connected in_settlement
  validate_object_move_request s req =
      has_bit s.rules rule_host_auth_workshop
      && validate_player_connected s req.player_id
      && elim (find_object s req.object_net_id) [
        | none ↦ false
        | some o ↦ o.in_use && elim (find_settlement s o.settlement_id) [
          | none ↦ false
          | some t ↦ t.in_use && in_settlement req.position t.center t.allowed_radius
        ]
      ]

unfoldable pub validate_object_scrap_request : SessionState → MsgObjectScrapRequest → Bool
unfolding validate_player_connected
validate_object_scrap_request s req =
    has_bit s.rules rule_host_auth_workshop
    && validate_player_connected s req.player_id
    && elim (find_object s req.object_net_id) [ none ↦ false | some o ↦ o.in_use ]
