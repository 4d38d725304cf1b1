-- ===== src/Codec/Workshop.antt =====
-- shared/protocol/packet_codec.c: the messages of messages_workshop.h.
pub mod Agree
use f4mp.Base.{not, ◌==◌, if◌then◌else◌}
use f4mp.Wire.Writer.{
  W, ◌and_then◌, pw_write_bool, pw_write_bytes, pw_write_u16, pw_write_u32, pw_write_u8,
}
use f4mp.Wire.Reader.{
  R, ◌>>=◌, done, pr_read_bool, pr_read_bytes, pr_read_u16, pr_read_u32, pr_read_u8,
}
use f4mp.Codec.Vectors.{pw_write_rot3, pw_write_vec3, pr_read_rot3, pr_read_vec3}
use f4mp.Messages.Workshop.{
  MsgBuildRequest, MsgObjectSpawn, MsgObjectMoveRequest, MsgObjectScrapRequest, MsgObjectUpdate,
  MsgObjectDespawn, MsgBuildResult,
}

unfoldable pub encode_msg_build_request : MsgBuildRequest → W
encode_msg_build_request m =
    pw_write_u32 m.request_id
    and_then pw_write_u16 m.player_id
    and_then pw_write_u16 m.reserved0
    and_then pw_write_u32 m.settlement_id
    and_then pw_write_u32 m.form_id
    and_then pw_write_vec3 m.position
    and_then pw_write_rot3 m.rotation
    and_then pw_write_u32 m.snap_target_net_id

unfoldable pub decode_msg_build_request : R MsgBuildRequest
decode_msg_build_request = do
  request_id ← pr_read_u32
  player_id ← pr_read_u16
  reserved0 ← pr_read_u16
  settlement_id ← pr_read_u32
  form_id ← pr_read_u32
  position ← pr_read_vec3
  rotation ← pr_read_rot3
  snap_target_net_id ← pr_read_u32
  done (record {
    request_id = request_id;
    player_id = player_id;
    reserved0 = reserved0;
    settlement_id = settlement_id;
    form_id = form_id;
    position = position;
    rotation = rotation;
    snap_target_net_id = snap_target_net_id;
  })

unfoldable pub encode_msg_object_spawn : MsgObjectSpawn → W
encode_msg_object_spawn m =
    pw_write_u32 m.object_net_id
    and_then pw_write_u32 m.form_id
    and_then pw_write_vec3 m.position
    and_then pw_write_rot3 m.rotation
    and_then pw_write_u16 m.state_flags
    and_then pw_write_u16 m.reserved0

unfoldable pub decode_msg_object_spawn : R MsgObjectSpawn
decode_msg_object_spawn = do
  object_net_id ← pr_read_u32
  form_id ← pr_read_u32
  position ← pr_read_vec3
  rotation ← pr_read_rot3
  state_flags ← pr_read_u16
  reserved0 ← pr_read_u16
  done (record {
    object_net_id = object_net_id;
    form_id = form_id;
    position = position;
    rotation = rotation;
    state_flags = state_flags;
    reserved0 = reserved0;
  })

unfoldable pub encode_msg_object_move_request : MsgObjectMoveRequest → W
encode_msg_object_move_request m =
    pw_write_u32 m.request_id
    and_then pw_write_u16 m.player_id
    and_then pw_write_u16 m.reserved0
    and_then pw_write_u32 m.object_net_id
    and_then pw_write_vec3 m.position
    and_then pw_write_rot3 m.rotation

unfoldable pub decode_msg_object_move_request : R MsgObjectMoveRequest
decode_msg_object_move_request = do
  request_id ← pr_read_u32
  player_id ← pr_read_u16
  reserved0 ← pr_read_u16
  object_net_id ← pr_read_u32
  position ← pr_read_vec3
  rotation ← pr_read_rot3
  done (record {
    request_id = request_id;
    player_id = player_id;
    reserved0 = reserved0;
    object_net_id = object_net_id;
    position = position;
    rotation = rotation;
  })

unfoldable pub encode_msg_object_scrap_request : MsgObjectScrapRequest → W
encode_msg_object_scrap_request m =
    pw_write_u32 m.request_id
    and_then pw_write_u16 m.player_id
    and_then pw_write_u16 m.reserved0
    and_then pw_write_u32 m.object_net_id

unfoldable pub decode_msg_object_scrap_request : R MsgObjectScrapRequest
decode_msg_object_scrap_request = do
  request_id ← pr_read_u32
  player_id ← pr_read_u16
  reserved0 ← pr_read_u16
  object_net_id ← pr_read_u32
  done (record {
    request_id = request_id;
    player_id = player_id;
    reserved0 = reserved0;
    object_net_id = object_net_id;
  })

unfoldable pub encode_msg_object_update : MsgObjectUpdate → W
encode_msg_object_update m =
    pw_write_u32 m.object_net_id
    and_then pw_write_u32 m.fields_mask
    and_then pw_write_vec3 m.position
    and_then pw_write_rot3 m.rotation
    and_then pw_write_u16 m.state_flags
    and_then pw_write_u16 m.reserved0

unfoldable pub decode_msg_object_update : R MsgObjectUpdate
decode_msg_object_update = do
  object_net_id ← pr_read_u32
  fields_mask ← pr_read_u32
  position ← pr_read_vec3
  rotation ← pr_read_rot3
  state_flags ← pr_read_u16
  reserved0 ← pr_read_u16
  done (record {
    object_net_id = object_net_id;
    fields_mask = fields_mask;
    position = position;
    rotation = rotation;
    state_flags = state_flags;
    reserved0 = reserved0;
  })

unfoldable pub encode_msg_object_despawn : MsgObjectDespawn → W
encode_msg_object_despawn m =
    pw_write_u32 m.object_net_id and_then pw_write_u8 m.reason and_then pw_write_bytes m.reserved0

unfoldable pub decode_msg_object_despawn : R MsgObjectDespawn
decode_msg_object_despawn = do
  object_net_id ← pr_read_u32
  reason ← pr_read_u8
  reserved0 ← pr_read_bytes 3
  done (record { object_net_id = object_net_id; reason = reason; reserved0 = reserved0 })

unfoldable pub encode_msg_build_result : MsgBuildResult → W
encode_msg_build_result m =
    pw_write_u32 m.request_id
    and_then pw_write_bool (not (m.accepted == 0))
    and_then pw_write_u8 m.reason
    and_then pw_write_u16 m.reserved0
    and_then pw_write_u32 m.object_net_id

unfoldable pub decode_msg_build_result : R MsgBuildResult
decode_msg_build_result = do
  request_id ← pr_read_u32
  b ← pr_read_bool
  reason ← pr_read_u8
  reserved0 ← pr_read_u16
  object_net_id ← pr_read_u32
  done (record {
    request_id = request_id;
    accepted = if b then 1 else 0;
    reason = reason;
    reserved0 = reserved0;
    object_net_id = object_net_id;
  })
