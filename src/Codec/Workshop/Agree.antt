-- ===== src/Codec/Workshop/Agree.antt =====
-- shared/protocol/packet_codec.c: lemmas on the encoders and decoders of messages_workshop.h.
use f4mp.Base.{not, ◌==◌, if◌then◌else◌}
use f4mp.Wire.Codes.{Codes, Codes-map, Codes-cons}
use f4mp.Wire.Fields.{bool-Codes, bytes-Codes, u16-Codes, u32-Codes, u8-Codes}
use f4mp.Codec.Vectors.{rot3-Codes, vec3-Codes}
use f4mp.Messages.Workshop.{
  MsgBuildRequest, MsgObjectSpawn, MsgObjectMoveRequest, MsgObjectScrapRequest, MsgObjectUpdate,
  MsgObjectDespawn, MsgBuildResult, IsMsgBuildRequest, IsMsgObjectSpawn, IsMsgObjectMoveRequest,
  IsMsgObjectScrapRequest, IsMsgObjectUpdate, IsMsgObjectDespawn, IsMsgBuildResult,
}
use f4mp.Codec.Workshop.{
  encode_msg_build_request, decode_msg_build_request, encode_msg_object_spawn,
  decode_msg_object_spawn, encode_msg_object_move_request, decode_msg_object_move_request,
  encode_msg_object_scrap_request, decode_msg_object_scrap_request, encode_msg_object_update,
  decode_msg_object_update, encode_msg_object_despawn, decode_msg_object_despawn,
  encode_msg_build_result, decode_msg_build_result,
}

pub msg_build_request-Codes :
    (m : MsgBuildRequest)
    → IsMsgBuildRequest m
    → Codes (encode_msg_build_request m) decode_msg_build_request m 44
unfolding encode_msg_build_request decode_msg_build_request
msg_build_request-Codes m h = Codes-cons _ (u32-Codes m.request_id h.request_id) (
    Codes-cons _ (u16-Codes m.player_id h.player_id) (
      Codes-cons _ (u16-Codes m.reserved0 h.reserved0) (
        Codes-cons _ (u32-Codes m.settlement_id h.settlement_id) (
          Codes-cons _ (u32-Codes m.form_id h.form_id) (
            Codes-cons _ (vec3-Codes m.position h.position) (
              Codes-cons _ (rot3-Codes m.rotation h.rotation)
                (Codes-map _ (u32-Codes m.snap_target_net_id h.snap_target_net_id))))))))

pub msg_object_spawn-Codes :
    (m : MsgObjectSpawn)
    → IsMsgObjectSpawn m
    → Codes (encode_msg_object_spawn m) decode_msg_object_spawn m 36
unfolding encode_msg_object_spawn decode_msg_object_spawn
msg_object_spawn-Codes m h = Codes-cons _ (u32-Codes m.object_net_id h.object_net_id) (
    Codes-cons _ (u32-Codes m.form_id h.form_id) (
      Codes-cons _ (vec3-Codes m.position h.position) (
        Codes-cons _ (rot3-Codes m.rotation h.rotation) (
          Codes-cons _ (u16-Codes m.state_flags h.state_flags)
            (Codes-map _ (u16-Codes m.reserved0 h.reserved0))))))

pub msg_object_move_request-Codes :
    (m : MsgObjectMoveRequest)
    → IsMsgObjectMoveRequest m
    → Codes (encode_msg_object_move_request m) decode_msg_object_move_request m 36
unfolding encode_msg_object_move_request decode_msg_object_move_request
msg_object_move_request-Codes m h = Codes-cons _ (u32-Codes m.request_id h.request_id) (
    Codes-cons _ (u16-Codes m.player_id h.player_id) (
      Codes-cons _ (u16-Codes m.reserved0 h.reserved0) (
        Codes-cons _ (u32-Codes m.object_net_id h.object_net_id) (
          Codes-cons _ (vec3-Codes m.position h.position)
            (Codes-map _ (rot3-Codes m.rotation h.rotation))))))

pub msg_object_scrap_request-Codes :
    (m : MsgObjectScrapRequest)
    → IsMsgObjectScrapRequest m
    → Codes (encode_msg_object_scrap_request m) decode_msg_object_scrap_request m 12
unfolding encode_msg_object_scrap_request decode_msg_object_scrap_request
msg_object_scrap_request-Codes m h = Codes-cons _ (u32-Codes m.request_id h.request_id) (
    Codes-cons _ (u16-Codes m.player_id h.player_id) (
      Codes-cons _ (u16-Codes m.reserved0 h.reserved0)
        (Codes-map _ (u32-Codes m.object_net_id h.object_net_id))))

pub msg_object_update-Codes :
    (m : MsgObjectUpdate)
    → IsMsgObjectUpdate m
    → Codes (encode_msg_object_update m) decode_msg_object_update m 36
unfolding encode_msg_object_update decode_msg_object_update
msg_object_update-Codes m h = Codes-cons _ (u32-Codes m.object_net_id h.object_net_id) (
    Codes-cons _ (u32-Codes m.fields_mask h.fields_mask) (
      Codes-cons _ (vec3-Codes m.position h.position) (
        Codes-cons _ (rot3-Codes m.rotation h.rotation) (
          Codes-cons _ (u16-Codes m.state_flags h.state_flags)
            (Codes-map _ (u16-Codes m.reserved0 h.reserved0))))))

pub msg_object_despawn-Codes :
    (m : MsgObjectDespawn)
    → IsMsgObjectDespawn m
    → Codes (encode_msg_object_despawn m) decode_msg_object_despawn m 8
unfolding encode_msg_object_despawn decode_msg_object_despawn
msg_object_despawn-Codes m h =
    Codes-cons _ (u32-Codes m.object_net_id h.object_net_id) (
      Codes-cons _ (u8-Codes m.reason h.reason) (Codes-map _ (bytes-Codes m.reserved0 h.reserved0)))

-- `accepted` comes back as 0 or 1.
pub msg_build_result-Codes :
    (m : MsgBuildResult)
    → IsMsgBuildResult m
    → Codes
        (encode_msg_build_result m)
        decode_msg_build_result
        (record m { accepted = if not (m.accepted == 0) then 1 else 0 })
        12
unfolding encode_msg_build_result decode_msg_build_result
msg_build_result-Codes m h = Codes-cons _ (u32-Codes m.request_id h.request_id) (
    Codes-cons _ (bool-Codes (not (m.accepted == 0))) (
      Codes-cons _ (u8-Codes m.reason h.reason) (
        Codes-cons _ (u16-Codes m.reserved0 h.reserved0)
          (Codes-map _ (u32-Codes m.object_net_id h.object_net_id)))))
