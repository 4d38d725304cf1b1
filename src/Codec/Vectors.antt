-- ===== src/Codec/Vectors.antt =====
-- The macros RW_VEC3_* and RW_ROT3_* of shared/protocol/packet_codec.c.
use f4mp.Wire.Writer.{W, ◌and_then◌, pw_write_f32}
use f4mp.Wire.Reader.{R, ◌>>=◌, done, pr_read_f32}
use f4mp.Wire.Codes.{Codes, Codes-cons, Codes-map}
use f4mp.Wire.Fields.{f32-Codes}
use f4mp.Messages.Types.{Vec3f, Rot3f, IsVec3f, IsRot3f}

unfoldable pub pw_write_vec3 : Vec3f → W
pw_write_vec3 v = pw_write_f32 v.x and_then pw_write_f32 v.y and_then pw_write_f32 v.z

unfoldable pub pr_read_vec3 : R Vec3f
pr_read_vec3 = do
  x ← pr_read_f32
  y ← pr_read_f32
  z ← pr_read_f32
  done (record { x = x; y = y; z = z })

unfoldable pub pw_write_rot3 : Rot3f → W
pw_write_rot3 v = pw_write_f32 v.pitch and_then pw_write_f32 v.yaw and_then pw_write_f32 v.roll

unfoldable pub pr_read_rot3 : R Rot3f
pr_read_rot3 = do
  pitch ← pr_read_f32
  yaw ← pr_read_f32
  roll ← pr_read_f32
  done (record { pitch = pitch; yaw = yaw; roll = roll })

pub vec3-Codes : (v : Vec3f) → IsVec3f v → Codes (pw_write_vec3 v) pr_read_vec3 v 12
unfolding pw_write_vec3 pr_read_vec3
vec3-Codes v h =
    Codes-cons _ (f32-Codes v.x h.x)
      (Codes-cons _ (f32-Codes v.y h.y) (Codes-map _ (f32-Codes v.z h.z)))

pub rot3-Codes : (v : Rot3f) → IsRot3f v → Codes (pw_write_rot3 v) pr_read_rot3 v 12
unfolding pw_write_rot3 pr_read_rot3
rot3-Codes v h =
    Codes-cons _ (f32-Codes v.pitch h.pitch)
      (Codes-cons _ (f32-Codes v.yaw h.yaw) (Codes-map _ (f32-Codes v.roll h.roll)))
