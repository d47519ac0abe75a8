-- ===== src/Protocol/GroupRoundTrip.antt =====
-- The messages of a group are read back as they were written.
use sarama.Base.{◌^◌, ◌≤◌, ◌<◌, ◌≡◌, false, none, length, All, All-imp}
use sarama.Base.Int.{pos, Fits}
use sarama.Wire.Decode.Primitives.{get_int16, get_int32}
use sarama.Wire.Decode.Collections.{get_bytes, get_string, get_nullable_string}
use sarama.Wire.Encode.Packet.{Put, end}
use sarama.Wire.Encode.Encoding.{encoding}
use sarama.Wire.RoundTrip.Reads.{Reads}
use sarama.Protocol.Fields.{since, put_all, get_positive}
use sarama.Protocol.Rules.{
  field-Reads, field_if-Reads, done-Reads, IsSayableNullable, IsSayableSlice, put_nullable-Reads,
  put_string-Reads, put_slice-Reads, IsElement, positive-Reads, put_int32-Reads, put_int16-Reads,
  last-Reads, put-Flat, rest-Flat, string_first,
}
use sarama.Protocol.Group.{
  HeartbeatRequest, heartbeat_request_packet, decode_heartbeat_request, HeartbeatResponse,
  heartbeat_response_packet, decode_heartbeat_response, SyncGroupRequestAssignment,
  assignment_packet, decode_assignment, SyncGroupRequest, sync_group_request_packet,
  decode_sync_group_request, SyncGroupResponse, sync_group_response_packet,
  decode_sync_group_response,
}

-- The lengths and the numbers can be said, and a field that the version lacks is at its default.
pub record IsSayableHeartbeat (r : HeartbeatRequest) : Type 0 where
  pub group_fits : length r.group_id < 2 ^ 15
  pub generation_fits : Fits (2 ^ 31) r.generation_id
  pub member_fits : length r.member_id < 2 ^ 15
  pub instance_fits : IsSayableNullable r.group_instance_id
  pub instance_since : since 3 r.version ≡ false → r.group_instance_id ≡ none

pub heartbeat_request-Reads :
    (r : HeartbeatRequest)
    → IsSayableHeartbeat r
    → Reads (decode_heartbeat_request r.version) (encoding (heartbeat_request_packet r)) r
unfolding decode_heartbeat_request heartbeat_request_packet
heartbeat_request-Reads r s =
    field-Reads get_string _ _ _ r.group_id r (put_string-Reads r.group_id s.group_fits) (
      field-Reads get_int32 _ _ _ r.generation_id r
        (put_int32-Reads r.generation_id s.generation_fits)
        (field-Reads get_string _ _ _ r.member_id r (put_string-Reads r.member_id s.member_fits) (
          field_if-Reads get_nullable_string _ _ end r.group_instance_id r (since 3 r.version) none
            (put_nullable-Reads r.group_instance_id s.instance_fits) s.instance_since
            (done-Reads r))))

pub record IsSayableHeartbeatResponse (r : HeartbeatResponse) : Type 0 where
  pub throttle_fits : Fits (2 ^ 31) r.throttle_time
  pub err_fits : Fits 0x8000 r.err
  pub throttle_since : since 1 r.version ≡ false → r.throttle_time ≡ pos 0

pub heartbeat_response-Reads :
    (r : HeartbeatResponse)
    → IsSayableHeartbeatResponse r
    → Reads (decode_heartbeat_response r.version) (encoding (heartbeat_response_packet r)) r
unfolding decode_heartbeat_response heartbeat_response_packet
heartbeat_response-Reads r s =
    field_if-Reads get_int32 _ _ _ r.throttle_time r (since 1 r.version) (pos 0)
      (put_int32-Reads r.throttle_time s.throttle_fits) s.throttle_since
      (field-Reads get_int16 _ _ _ r.err r (put_int16-Reads r.err s.err_fits) (done-Reads r))

abbrev pub IsSayableAssignment : SyncGroupRequestAssignment → Type 0
IsSayableAssignment a = (length a.member_id < 2 ^ 15) × IsSayableSlice a.assignment

assignment-Reads :
    (a : SyncGroupRequestAssignment)
    → IsSayableAssignment a
    → Reads decode_assignment (encoding (assignment_packet a end)) a
unfolding decode_assignment
assignment-Reads a s =
    field-Reads get_string _ _ _ a.member_id a (put_string-Reads a.member_id s.0)
      (field-Reads get_bytes _ _ _ a.assignment a (put_slice-Reads a.assignment s.1) (done-Reads a))

assignment-IsElement :
    (a : SyncGroupRequestAssignment)
    → IsSayableAssignment a
    → IsElement assignment_packet decode_assignment a
assignment-IsElement a s = (
  put-Flat (Put.string a.member_id) _ (put-Flat (Put.bytes a.assignment) _ rest-Flat),
  string_first a.member_id _,
  assignment-Reads a s,
)

pub record IsSayableSync (r : SyncGroupRequest) : Type 0 where
  pub group_fits : length r.group_id < 2 ^ 15
  pub generation_fits : Fits (2 ^ 31) r.generation_id
  pub member_fits : length r.member_id < 2 ^ 15
  pub instance_fits : IsSayableNullable r.group_instance_id
  pub instance_since : since 3 r.version ≡ false → r.group_instance_id ≡ none
  pub few : length r.group_assignments ≤ 131070
  pub assignments_fit : All IsSayableAssignment r.group_assignments

pub sync_group_request-Reads :
    (r : SyncGroupRequest)
    → IsSayableSync r
    → Reads (decode_sync_group_request r.version) (encoding (sync_group_request_packet r)) r
unfolding decode_sync_group_request sync_group_request_packet
sync_group_request-Reads r s =
    field-Reads get_string _ _ _ r.group_id r (put_string-Reads r.group_id s.group_fits) (
      field-Reads get_int32 _ _ _ r.generation_id r
        (put_int32-Reads r.generation_id s.generation_fits)
        (field-Reads get_string _ _ _ r.member_id r (put_string-Reads r.member_id s.member_fits) (
          field_if-Reads get_nullable_string _ _ _ r.group_instance_id r (since 3 r.version) none
            (put_nullable-Reads r.group_instance_id s.instance_fits) s.instance_since
            (last-Reads (get_positive decode_assignment) (λ xs. record r { group_assignments = xs })
              (put_all assignment_packet r.group_assignments) r.group_assignments
              (positive-Reads assignment_packet decode_assignment r.group_assignments s.few (
                All-imp IsSayableAssignment (IsElement assignment_packet decode_assignment)
                  assignment-IsElement r.group_assignments s.assignments_fit))))))

pub record IsSayableSyncResponse (r : SyncGroupResponse) : Type 0 where
  pub throttle_fits : Fits (2 ^ 31) r.throttle_time
  pub throttle_since : since 1 r.version ≡ false → r.throttle_time ≡ pos 0
  pub err_fits : Fits 0x8000 r.err
  pub assignment_fits : IsSayableSlice r.member_assignment

pub sync_group_response-Reads :
    (r : SyncGroupResponse)
    → IsSayableSyncResponse r
    → Reads (decode_sync_group_response r.version) (encoding (sync_group_response_packet r)) r
unfolding decode_sync_group_response sync_group_response_packet
sync_group_response-Reads r s =
    field_if-Reads get_int32 _ _ _ r.throttle_time r (since 1 r.version) (pos 0)
      (put_int32-Reads r.throttle_time s.throttle_fits) s.throttle_since
      (field-Reads get_int16 _ _ _ r.err r (put_int16-Reads r.err s.err_fits) (
        field-Reads get_bytes _ _ _ r.member_assignment r
          (put_slice-Reads r.member_assignment s.assignment_fits) (done-Reads r)))
