-- ===== src/Protocol/Leave.antt =====
-- Leaving a group: leave_group_request.go and leave_group_response.go.
use sarama.Base.{ℕ, not, List, [], Option, if◌then◌else◌}
use sarama.Base.Int.{ℤ, pos}
use sarama.Wire.Decode.Monad.{M, ◌>>=◌, pure}
use sarama.Wire.Decode.Primitives.{get_int16, get_int32}
use sarama.Wire.Decode.Collections.{get_string, get_nullable_string}
use sarama.Wire.Encode.Packet.{Put, Packet, end, put}
use sarama.Protocol.Fields.{since, put_if, get_if, put_elements, put_all, get_made}

pub record MemberIdentity : Type 0 where
  pub member_id : List ℕ
  pub group_instance_id : Option (List ℕ)

abbrev pub member_identity_packet : MemberIdentity → Packet → Packet
member_identity_packet m rest =
    put (Put.string m.member_id) (put (Put.nullable_string m.group_instance_id) rest)

unfoldable pub decode_member_identity : M MemberIdentity
decode_member_identity = do
  m ← get_string
  i ← get_nullable_string
  pure (record { member_id = m; group_instance_id = i })

pub record LeaveGroupRequest : Type 0 where
  pub version : ℤ
  pub group_id : List ℕ
  pub member_id : List ℕ
  pub members : List MemberIdentity

unfoldable pub leave_group_request_packet : LeaveGroupRequest → Packet
unfolding put_elements
leave_group_request_packet r = put (Put.string r.group_id) (
    if since 3 r.version
    then put_all member_identity_packet r.members
    else put (Put.string r.member_id) end)

unfoldable pub decode_leave_group_request : ℤ → M LeaveGroupRequest
unfolding decode_member_identity get_made
decode_leave_group_request v = do
  g ← get_string
  m ← get_if (not (since 3 v)) get_string []
  ms ← get_if (since 3 v) (get_made decode_member_identity) []
  pure (record { version = v; group_id = g; member_id = m; members = ms })

pub record MemberResponse : Type 0 where
  pub member_id : List ℕ
  pub group_instance_id : Option (List ℕ)
  pub err : ℤ

abbrev pub member_response_packet : MemberResponse → Packet → Packet
member_response_packet m rest =
    put (Put.string m.member_id)
      (put (Put.nullable_string m.group_instance_id) (put (Put.int16 m.err) rest))

unfoldable pub decode_member_response : M MemberResponse
decode_member_response = do
  m ← get_string
  i ← get_nullable_string
  e ← get_int16
  pure (record { member_id = m; group_instance_id = i; err = e })

pub record LeaveGroupResponse : Type 0 where
  pub version : ℤ
  pub throttle_time : ℤ
  pub err : ℤ
  pub members : List MemberResponse

unfoldable pub leave_group_response_packet : LeaveGroupResponse → Packet
unfolding put_elements
leave_group_response_packet r = put_if (since 1 r.version) (Put.int32 r.throttle_time) (
    put (Put.int16 r.err)
      (if since 3 r.version then put_all member_response_packet r.members else end))

unfoldable pub decode_leave_group_response : ℤ → M LeaveGroupResponse
unfolding decode_member_response get_made
decode_leave_group_response v = do
  t ← get_if (since 1 v) get_int32 (pos 0)
  e ← get_int16
  ms ← get_if (since 3 v) (get_made decode_member_response) []
  pure (record { version = v; throttle_time = t; err = e; members = ms })
