-- ===== src/Protocol/GroupMessage.antt =====
-- The messages of a group, one beside the other.
use sarama.Base.{Option, some}
use sarama.Wire.Decode.Monad.{M, ◌>>=◌, pure}
use sarama.Wire.Encode.Packet.{Packet}
use sarama.Protocol.Group.{
  HeartbeatRequest, heartbeat_request_packet, decode_heartbeat_request, HeartbeatResponse,
  heartbeat_response_packet, decode_heartbeat_response, SyncGroupRequest, sync_group_request_packet,
  decode_sync_group_request, SyncGroupResponse, sync_group_response_packet,
  decode_sync_group_response,
}
use sarama.Protocol.Membership.{
  JoinGroupRequest, join_group_request_packet, decode_join_group_request, JoinGroupResponse,
  join_group_response_packet, decode_join_group_response,
}
use sarama.Protocol.Leave.{
  LeaveGroupRequest, leave_group_request_packet, decode_leave_group_request, LeaveGroupResponse,
  leave_group_response_packet, decode_leave_group_response,
}

pub data GroupMessage : Type 0 where
  heartbeat_request : HeartbeatRequest → GroupMessage
  heartbeat_response : HeartbeatResponse → GroupMessage
  join_group_request : JoinGroupRequest → GroupMessage
  join_group_response : JoinGroupResponse → GroupMessage
  leave_group_request : LeaveGroupRequest → GroupMessage
  leave_group_response : LeaveGroupResponse → GroupMessage
  sync_group_request : SyncGroupRequest → GroupMessage
  sync_group_response : SyncGroupResponse → GroupMessage

-- What `encode` makes; `none` is its own error.
unfoldable pub message_packet : GroupMessage → Option Packet
unfolding join_group_request_packet
message_packet (heartbeat_request r) = some (heartbeat_request_packet r)
message_packet (heartbeat_response r) = some (heartbeat_response_packet r)
message_packet (join_group_request r) = join_group_request_packet r
message_packet (join_group_response r) = some (join_group_response_packet r)
message_packet (leave_group_request r) = some (leave_group_request_packet r)
message_packet (leave_group_response r) = some (leave_group_response_packet r)
message_packet (sync_group_request r) = some (sync_group_request_packet r)
message_packet (sync_group_response r) = some (sync_group_response_packet r)

-- The decode method of the same type and version.
unfoldable pub decode_like : GroupMessage → M GroupMessage
decode_like (heartbeat_request r) =
    decode_heartbeat_request r.version >>= λ x. pure (heartbeat_request x)
decode_like (heartbeat_response r) =
    decode_heartbeat_response r.version >>= λ x. pure (heartbeat_response x)
decode_like (join_group_request r) =
    decode_join_group_request r.version >>= λ x. pure (join_group_request x)
decode_like (join_group_response r) =
    decode_join_group_response r.version >>= λ x. pure (join_group_response x)
decode_like (leave_group_request r) =
    decode_leave_group_request r.version >>= λ x. pure (leave_group_request x)
decode_like (leave_group_response r) =
    decode_leave_group_response r.version >>= λ x. pure (leave_group_response x)
decode_like (sync_group_request r) =
    decode_sync_group_request r.version >>= λ x. pure (sync_group_request x)
decode_like (sync_group_response r) =
    decode_sync_group_response r.version >>= λ x. pure (sync_group_response x)
