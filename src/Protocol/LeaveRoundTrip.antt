-- ===== src/Protocol/LeaveRoundTrip.antt =====
-- The messages of leaving a group are read back as they were written.
use sarama.Base.{
  ℕ, ◌^◌, ◌≤◌, ◌<◌, ◌≡◌, refl, subst, Bool, true, false, not, List, [], length, All, All-imp,
  if◌then◌else◌,
}
use sarama.Base.Int.{pos, Fits}
use sarama.Wire.Decode.Monad.{◌>>=◌, pure}
use sarama.Wire.Decode.Primitives.{get_int16, get_int32}
use sarama.Wire.Decode.Collections.{get_string, get_nullable_string}
use sarama.Wire.Encode.Packet.{Put, end, put}
use sarama.Wire.Encode.Encoding.{encoding}
use sarama.Wire.RoundTrip.Reads.{Reads}
use sarama.Protocol.Fields.{since, get_if, put_all, get_made}
use sarama.Protocol.Rules.{
  field-Reads, field_if-Reads, done-Reads, IsSayableNullable, put_nullable-Reads, put_string-Reads,
  IsElement, made-Reads, put_int32-Reads, put_int16-Reads, last-Reads, put-Flat, rest-Flat,
  string_first,
}
use sarama.Protocol.Leave.{
  MemberIdentity, member_identity_packet, decode_member_identity, LeaveGroupRequest,
  leave_group_request_packet, decode_leave_group_request, MemberResponse, member_response_packet,
  decode_member_response, LeaveGroupResponse, leave_group_response_packet,
  decode_leave_group_response,
}

abbrev pub IsSayableIdentity : MemberIdentity → Type 0
IsSayableIdentity m = (length m.member_id < 2 ^ 15) × IsSayableNullable m.group_instance_id

identity-Reads :
    (m : MemberIdentity)
    → IsSayableIdentity m
    → Reads decode_member_identity (encoding (member_identity_packet m end)) m
unfolding decode_member_identity
identity-Reads m s = field-Reads get_string _ _ _ m.member_id m (put_string-Reads m.member_id s.0) (
    field-Reads get_nullable_string _ _ _ m.group_instance_id m
      (put_nullable-Reads m.group_instance_id s.1) (done-Reads m))

identity-IsElement :
    (m : MemberIdentity)
    → IsSayableIdentity m
    → IsElement member_identity_packet decode_member_identity m
identity-IsElement m s = (
  put-Flat (Put.string m.member_id) _
      (put-Flat (Put.nullable_string m.group_instance_id) _ rest-Flat),
  string_first m.member_id _,
  identity-Reads m s,
)

-- A member is named alone before version 3, and in the list from there on.
pub record IsSayableLeave (r : LeaveGroupRequest) : Type 0 where
  pub group_fits : length r.group_id < 2 ^ 15
  pub member_fits : length r.member_id < 2 ^ 15
  pub member_before : since 3 r.version ≡ true → r.member_id ≡ []
  pub few : length r.members ≤ 131070
  pub members_fit : All IsSayableIdentity r.members
  pub members_since : since 3 r.version ≡ false → r.members ≡ []

identities-Reads :
    (r : LeaveGroupRequest)
    → IsSayableLeave r
    → Reads
        (get_made decode_member_identity)
        (encoding (put_all member_identity_packet r.members))
        r.members
identities-Reads r s = made-Reads member_identity_packet decode_member_identity r.members s.few (
    All-imp IsSayableIdentity (IsElement member_identity_packet decode_member_identity)
      identity-IsElement r.members s.members_fit)

pub leave_group_request-Reads :
    (r : LeaveGroupRequest)
    → IsSayableLeave r
    → Reads (decode_leave_group_request r.version) (encoding (leave_group_request_packet r)) r
unfolding decode_leave_group_request leave_group_request_packet
leave_group_request-Reads r s =
    field-Reads get_string _ _ _ r.group_id r (put_string-Reads r.group_id s.group_fits)
      (go (since 3 r.version) refl)
  where
    go :
        (b : Bool)
        → since 3 r.version ≡ b
        → Reads
            (get_if (not b) get_string [] >>= λ m.
              get_if b (get_made decode_member_identity) [] >>= λ ms.
              pure (record {
                version = r.version;
                group_id = r.group_id;
                member_id = m;
                members = ms;
              }))
            (encoding (
              if b
              then put_all member_identity_packet r.members
              else put (Put.string r.member_id) end))
            r
    go true e =
        subst
          (λ (m : List ℕ).
            Reads
              (get_made decode_member_identity >>= λ ms.
                pure (record r { member_id = m; members = ms }))
              (encoding (put_all member_identity_packet r.members)) r)
          (s.member_before e)
          (last-Reads (get_made decode_member_identity) (λ ms. record r { members = ms })
            (put_all member_identity_packet r.members) r.members (identities-Reads r s))
    go false e =
        field-Reads get_string _ _ end r.member_id r (put_string-Reads r.member_id s.member_fits) (
          subst
            (λ (ms : List MemberIdentity).
              Reads (pure (record r { members = ms })) (encoding end) r)
            (s.members_since e) (done-Reads r))

abbrev pub IsSayableMemberResponse : MemberResponse → Type 0
IsSayableMemberResponse m =
    (length m.member_id < 2 ^ 15) × IsSayableNullable m.group_instance_id × Fits 0x8000 m.err

response-Reads :
    (m : MemberResponse)
    → IsSayableMemberResponse m
    → Reads decode_member_response (encoding (member_response_packet m end)) m
unfolding decode_member_response
response-Reads m (i, n, e) =
    field-Reads get_string _ _ _ m.member_id m (put_string-Reads m.member_id i) (
      field-Reads get_nullable_string _ _ _ m.group_instance_id m
        (put_nullable-Reads m.group_instance_id n)
        (field-Reads get_int16 _ _ _ m.err m (put_int16-Reads m.err e) (done-Reads m)))

response-IsElement :
    (m : MemberResponse)
    → IsSayableMemberResponse m
    → IsElement member_response_packet decode_member_response m
response-IsElement m s = (
  put-Flat (Put.string m.member_id) _ (
      put-Flat (Put.nullable_string m.group_instance_id) _
        (put-Flat (Put.int16 m.err) _ rest-Flat)),
  string_first m.member_id _,
  response-Reads m s,
)

pub record IsSayableLeaveResponse (r : LeaveGroupResponse) : Type 0 where
  pub throttle_fits : Fits (2 ^ 31) r.throttle_time
  pub throttle_since : since 1 r.version ≡ false → r.throttle_time ≡ pos 0
  pub err_fits : Fits 0x8000 r.err
  pub few : length r.members ≤ 131070
  pub members_fit : All IsSayableMemberResponse r.members
  pub members_since : since 3 r.version ≡ false → r.members ≡ []

responses-Reads :
    (r : LeaveGroupResponse)
    → IsSayableLeaveResponse r
    → Reads
        (get_made decode_member_response)
        (encoding (put_all member_response_packet r.members))
        r.members
responses-Reads r s = made-Reads member_response_packet decode_member_response r.members s.few (
    All-imp IsSayableMemberResponse (IsElement member_response_packet decode_member_response)
      response-IsElement r.members s.members_fit)

pub leave_group_response-Reads :
    (r : LeaveGroupResponse)
    → IsSayableLeaveResponse r
    → Reads (decode_leave_group_response r.version) (encoding (leave_group_response_packet r)) r
unfolding decode_leave_group_response leave_group_response_packet
leave_group_response-Reads r s =
    field_if-Reads get_int32 _ _ _ r.throttle_time r (since 1 r.version) (pos 0)
      (put_int32-Reads r.throttle_time s.throttle_fits) s.throttle_since
      (field-Reads get_int16 _ _ _ r.err r (put_int16-Reads r.err s.err_fits)
        (go (since 3 r.version) refl))
  where
    go :
        (b : Bool)
        → since 3 r.version ≡ b
        → Reads
            (get_if b (get_made decode_member_response) [] >>= λ ms.
              pure (record r { members = ms }))
            (encoding (if b then put_all member_response_packet r.members else end))
            r
    go true e =
        last-Reads (get_made decode_member_response) (λ ms. record r { members = ms })
          (put_all member_response_packet r.members) r.members (responses-Reads r s)
    go false e =
        subst
          (λ (ms : List MemberResponse). Reads (pure (record r { members = ms })) (encoding end) r)
          (s.members_since e) (done-Reads r)
