-- ===== src/Service/Geometry.antt =====
-- service/src/combat_geometry.c, the distances of authority_validation.c and interest_manager.c, and
-- los_policy.c. `a > b` is `b < a`, and `a >= b` is `b <= a`.
use f4mp.Base.{
  ℕ, Bool, true, false, not, ◌&&◌, Option, none, some, List, if◌then◌else◌, take, drop, ◌++◌, ltb,
}
use f4mp.Messages.Types.{Vec3f}
use f4mp.Service.State.{SessionState, WorldTraceProvider, ActorRuntimeState, ObjectRuntimeState}
use f4mp.Service.Store.{wtp_trace_allows, find_player}
use f4mp.Service.Floats.{Floats}

pub record CombatGeometryConfig : Type 0 where
  pub max_range : ℕ
  pub min_dot : ℕ

-- 4096.0f and 0.35f.
unfoldable pub av_default_combat_geometry : CombatGeometryConfig
av_default_combat_geometry = record { max_range = 0x4580_0000; min_dot = 0x3eb3_3333 }

-- `trace_fn` of the line-of-sight policy; `provider` comes before it.
pub record LosPolicy : Type 0 where
  pub trace_fn : Option (Vec3f → Vec3f → Bool)
  pub default_allow_when_unset : Bool
  pub provider : Option WorldTraceProvider

unfoldable pub los_policy_init : LosPolicy
los_policy_init = record { trace_fn = none; default_allow_when_unset = true; provider = none }

unfoldable pub los_policy_set_trace : LosPolicy → Option (Vec3f → Vec3f → Bool) → LosPolicy
los_policy_set_trace p fn = record p { trace_fn = fn }

unfoldable pub los_policy_set_provider : LosPolicy → Option WorldTraceProvider → LosPolicy
los_policy_set_provider p provider = record p { provider = provider }

unfoldable pub los_policy_allows : LosPolicy → Vec3f → Vec3f → Bool
los_policy_allows p origin target = elim p.provider [
  | some provider ↦ wtp_trace_allows provider origin target
  | none ↦ elim p.trace_fn [ none ↦ p.default_allow_when_unset | some f ↦ f origin target ]
]

module _ (F : Floats) where
  open F use {add, sub, mul, div, sqrt, lt, le}

  unfoldable pub sqrf : ℕ → ℕ
  sqrf v = mul v v

  unfoldable pub distance_sq : Vec3f → Vec3f → ℕ
  unfolding sqrf
  distance_sq a b = add (add (sqrf (sub a.x b.x)) (sqrf (sub a.y b.y))) (sqrf (sub a.z b.z))

  unfoldable pub cg_length_sq : Vec3f → ℕ
  cg_length_sq v = add (add (mul v.x v.x) (mul v.y v.y)) (mul v.z v.z)

  unfoldable pub cg_dot : Vec3f → Vec3f → ℕ
  cg_dot a b = add (add (mul a.x b.x) (mul a.y b.y)) (mul a.z b.z)

  -- 0.0001f and 1.0f; on `false` the vector is left alone.
  unfoldable pub cg_normalize : Vec3f → Bool × Vec3f
  cg_normalize v =
      if lt (cg_length_sq v) 0x38d1_b717
      then (false, v)
      else (let inv = div 0x3f80_0000 (sqrt (cg_length_sq v)) in
          (true, record { x = mul v.x inv; y = mul v.y inv; z = mul v.z inv }))

  -- The score, or `none` where the function returns false.
  unfoldable pub cg_target_within_cone : Vec3f → Vec3f → Vec3f → CombatGeometryConfig → Option ℕ
  cg_target_within_cone origin dir target cfg =
      let to : Vec3f = record {
        x = sub target.x origin.x;
        y = sub target.y origin.y;
        z = sub target.z origin.z;
      } in
      let dist2 = cg_length_sq to in
      let dist = sqrt dist2 in
      let unit : Vec3f = record { x = div to.x dist; y = div to.y dist; z = div to.z dist } in
      let dot = cg_dot dir unit in
      if lt dist2 0x38d1_b717
      then none
      else if lt cfg.max_range dist
      then none
      else if lt dot cfg.min_dot
      then none
      else some (sub dot (div dist cfg.max_range))

  unfoldable pub interest_actor_relevant_to_player : SessionState → ℕ → ActorRuntimeState → Bool
  interest_actor_relevant_to_player s player_id actor =
      if not actor.in_use then false else elim (find_player s player_id) [
        | none ↦ false
        | some p ↦
            p.connected
            && le (distance_sq actor.replicated_state.position p.replicated_state.position)
                (mul s.bubble.radius s.bubble.radius)
      ]

  unfoldable pub interest_object_relevant_to_player : SessionState → ℕ → ObjectRuntimeState → Bool
  interest_object_relevant_to_player s player_id object =
      if not object.in_use then false else elim (find_player s player_id) [
        | none ↦ false
        | some p ↦
            p.connected
            && le (distance_sq object.position p.replicated_state.position)
                (mul s.bubble.radius s.bubble.radius)
      ]

unfoldable pub interest_rebuild_bubble : SessionState → Vec3f → ℕ → List ℕ → ℕ → SessionState
interest_rebuild_bubble s center radius cells cell_count =
    let count = if ltb 128 cell_count then 128 else cell_count in
    record s {
      bubble = record {
        center = center;
        radius = radius;
        cell_count = count;
        cells = take count cells ++ drop count s.bubble.cells;
      };
    }
