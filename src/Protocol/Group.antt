-- ===== src/Protocol/Group.antt =====
-- The messages of a consumer group's membership: join_group_*.go, heartbeat_*.go, leave_group_*.go and
-- sync_group_*.go. A string is its bytes; a nil slice of structs is an empty one.
use sarama.Base.{ℕ, List, Option, none}
use sarama.Base.Int.{ℤ, pos}
use sarama.Wire.Decode.Monad.{M, ◌>>=◌, pure}
use sarama.Wire.Decode.Primitives.{get_int16, get_int32}
use sarama.Wire.Decode.Collections.{get_bytes, get_string, get_nullable_string}
use sarama.Wire.Encode.Packet.{Put, Packet, end, put}
use sarama.Protocol.Fields.{since, put_if, get_if, put_elements, put_all, get_positive}

pub record HeartbeatRequest : Type 0 where
  pub version : ℤ
  pub group_id : List ℕ
  pub generation_id : ℤ
  pub member_id : List ℕ
  pub group_instance_id : Option (List ℕ)

unfoldable pub heartbeat_request_packet : HeartbeatRequest → Packet
heartbeat_request_packet r = put (Put.string r.group_id) (
    put (Put.int32 r.generation_id) (
      put (Put.string r.member_id)
        (put_if (since 3 r.version) (Put.nullable_string r.group_instance_id) end)))

unfoldable pub decode_heartbeat_request : ℤ → M HeartbeatRequest
decode_heartbeat_request v = do
  g ← get_string
  n ← get_int32
  m ← get_string
  i ← get_if (since 3 v) get_nullable_string none
  pure (record {
    version = v;
    group_id = g;
    generation_id = n;
    member_id = m;
    group_instance_id = i;
  })

pub record HeartbeatResponse : Type 0 where
  pub version : ℤ
  pub throttle_time : ℤ
  pub err : ℤ

unfoldable pub heartbeat_response_packet : HeartbeatResponse → Packet
heartbeat_response_packet r =
    put_if (since 1 r.version) (Put.int32 r.throttle_time) (put (Put.int16 r.err) end)

unfoldable pub decode_heartbeat_response : ℤ → M HeartbeatResponse
decode_heartbeat_response v = do
  t ← get_if (since 1 v) get_int32 (pos 0)
  e ← get_int16
  pure (record { version = v; throttle_time = t; err = e })

pub record SyncGroupRequestAssignment : Type 0 where
  pub member_id : List ℕ
  pub assignment : Option (List ℕ)

abbrev pub assignment_packet : SyncGroupRequestAssignment → Packet → Packet
assignment_packet a rest = put (Put.string a.member_id) (put (Put.bytes a.assignment) rest)

unfoldable pub decode_assignment : M SyncGroupRequestAssignment
decode_assignment = do
  m ← get_string
  a ← get_bytes
  pure (record { member_id = m; assignment = a })

pub record SyncGroupRequest : Type 0 where
  pub version : ℤ
  pub group_id : List ℕ
  pub generation_id : ℤ
  pub member_id : List ℕ
  pub group_instance_id : Option (List ℕ)
  pub group_assignments : List SyncGroupRequestAssignment

unfoldable pub sync_group_request_packet : SyncGroupRequest → Packet
unfolding put_elements
sync_group_request_packet r = put (Put.string r.group_id) (
    put (Put.int32 r.generation_id) (
      put (Put.string r.member_id) (
        put_if (since 3 r.version) (Put.nullable_string r.group_instance_id)
          (put_all assignment_packet r.group_assignments))))

unfoldable pub decode_sync_group_request : ℤ → M SyncGroupRequest
unfolding decode_assignment get_positive
decode_sync_group_request v = do
  g ← get_string
  n ← get_int32
  m ← get_string
  i ← get_if (since 3 v) get_nullable_string none
  as' ← get_positive decode_assignment
  pure (record {
    version = v;
    group_id = g;
    generation_id = n;
    member_id = m;
    group_instance_id = i;
    group_assignments = as';
  })

pub record SyncGroupResponse : Type 0 where
  pub version : ℤ
  pub throttle_time : ℤ
  pub err : ℤ
  pub member_assignment : Option (List ℕ)

unfoldable pub sync_group_response_packet : SyncGroupResponse → Packet
sync_group_response_packet r =
    put_if (since 1 r.version) (Put.int32 r.throttle_time)
      (put (Put.int16 r.err) (put (Put.bytes r.member_assignment) end))

unfoldable pub decode_sync_group_response : ℤ → M SyncGroupResponse
decode_sync_group_response v = do
  t ← get_if (since 1 v) get_int32 (pos 0)
  e ← get_int16
  a ← get_bytes
  pure (record { version = v; throttle_time = t; err = e; member_assignment = a })
