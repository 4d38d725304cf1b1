-- ===== src/Client/Policy.antt =====
-- plugin/src/remote_proxy_update_policy.c: how far a remote player is moved towards its new transform.
use f4mp.Base.{ℕ, Bool, true, false, not, Option, none, some, if◌then◌else◌}
use f4mp.Messages.Types.{Vec3f}
use f4mp.Service.Floats.{Floats}
use f4mp.Client.Records.{ProxyPlayerRecord, ProxyPlayerUpdateSpec}
use f4mp.Client.Scene.Updates.{clamp01, lerp_vec, lerp_rot}

pub record RemoteProxyUpdatePolicy : Type 0 where
  pub enabled : Bool
  pub teleport_distance : ℕ
  pub position_lerp_alpha : ℕ
  pub rotation_lerp_alpha : ℕ

pub record RemoteProxyUpdatePolicyResult : Type 0 where
  pub policy_enabled : Bool
  pub teleported : Bool
  pub smoothed_position : Bool
  pub smoothed_rotation : Bool
  pub source_distance : ℕ

-- `8.0f`, `0.25f` and `0.35f`
unfoldable pub rpup_init_default : RemoteProxyUpdatePolicy
rpup_init_default = record {
  enabled = true;
  teleport_distance = 0x4100_0000;
  position_lerp_alpha = 0x3e80_0000;
  rotation_lerp_alpha = 0x3eb3_3333;
}

module _ (F : Floats) where
  open F use {lt, sub, mul, add}

  unfoldable pub rpup_set : Option RemoteProxyUpdatePolicy → RemoteProxyUpdatePolicy
  rpup_set none = rpup_init_default
  rpup_set (some policy) = record policy {
    position_lerp_alpha = clamp01 F policy.position_lerp_alpha;
    rotation_lerp_alpha = clamp01 F policy.rotation_lerp_alpha;
  }

  unfoldable pub dist_sq : Vec3f → Vec3f → ℕ
  dist_sq a b = add (add (mul dx dx) (mul dy dy)) (mul dz dz)
    where
      dx : ℕ
      dx = sub a.x b.x

      dy : ℕ
      dy = sub a.y b.y

      dz : ℕ
      dz = sub a.z b.z

  abbrev is_teleport : RemoteProxyUpdatePolicy → ℕ → Bool
  is_teleport policy d = lt (mul policy.teleport_distance policy.teleport_distance) d

  abbrev smooth :
      RemoteProxyUpdatePolicy → ProxyPlayerRecord → ProxyPlayerUpdateSpec → ProxyPlayerUpdateSpec
  smooth policy current update = record update {
    position = lerp_vec F current.position update.position (clamp01 F policy.position_lerp_alpha);
    rotation = lerp_rot F current.rotation update.rotation (clamp01 F policy.rotation_lerp_alpha);
  }

  unfoldable pub rpup_apply_player_update_ex :
      RemoteProxyUpdatePolicy
      → ProxyPlayerRecord
      → ProxyPlayerUpdateSpec
      → ProxyPlayerUpdateSpec × RemoteProxyUpdatePolicyResult
  rpup_apply_player_update_ex policy current update =
      if not policy.enabled
      then (update, seen)
      else if is_teleport policy seen.source_distance
      then (update, record seen { teleported = true })
      else (
        smooth policy current update,
        record seen { smoothed_position = true; smoothed_rotation = true },
      )
    where
      seen : RemoteProxyUpdatePolicyResult
      seen = record {
        policy_enabled = policy.enabled;
        teleported = false;
        smoothed_position = false;
        smoothed_rotation = false;
        source_distance = dist_sq current.position update.position;
      }
