-- ===== src/Messages/Types.antt =====
-- shared/protocol/protocol_types.h. A float is its 32 bits, and a signed number its bit pattern.
use f4mp.Base.{ℕ, ◌^◌, ◌<◌, ◌≡◌, List, length}

pub record Vec3f : Type 0 where
  pub x : ℕ
  pub y : ℕ
  pub z : ℕ

pub record Rot3f : Type 0 where
  pub pitch : ℕ
  pub yaw : ℕ
  pub roll : ℕ

pub record IsVec3f (v : Vec3f) : Type 0 where
  pub x : v.x < 2 ^ 32
  pub y : v.y < 2 ^ 32
  pub z : v.z < 2 ^ 32

pub record IsRot3f (v : Rot3f) : Type 0 where
  pub pitch : v.pitch < 2 ^ 32
  pub yaw : v.yaw < 2 ^ 32
  pub roll : v.roll < 2 ^ 32

-- A byte array of fixed size.
abbrev pub Holds : ℕ → List ℕ → Type 0
Holds n bs = length bs ≡ n
