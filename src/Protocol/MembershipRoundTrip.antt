-- ===== src/Protocol/MembershipRoundTrip.antt =====
-- The messages of joining a group are read back as they were written.
use sarama.Base.{
  ◌^◌, ◌≤◌, ◌<◌, ◌≡◌, refl, ap, false, List, [], ◌∷◌, none, length, All, All-imp, if_both,
}
use sarama.Base.Int.{ℤ, pos, Fits}
use sarama.Wire.Decode.Primitives.{get_int16, get_int32}
use sarama.Wire.Decode.Collections.{get_bytes, get_string, get_nullable_string}
use sarama.Wire.Encode.Packet.{Put, end}
use sarama.Wire.Encode.Encoding.{encoding}
use sarama.Wire.RoundTrip.Reads.{Reads}
use sarama.Protocol.Fields.{since, put_elements, put_all, get_each, get_made}
use sarama.Protocol.Rules.{
  field-Reads, field_if-Reads, done-Reads, IsSayableNullable, IsSayableSlice, put_nullable-Reads,
  put_string-Reads, put_slice-Reads, IsElement, all-Reads, made-Reads, each-Reads, put_int32-Reads,
  put_int16-Reads, last-Reads, put-Flat, put_if-Flat, rest-Flat, string_first,
}
use sarama.Protocol.Membership.{
  GroupProtocol, group_protocol_packet, decode_group_protocol, JoinGroupRequest, join_group_head,
  chosen_protocols, with_protocols, same_bytes, join_group_request_packet, set_protocol, as_map,
  protocols_of, decode_join_group_request, GroupMember, group_member_packet, decode_group_member,
  JoinGroupResponse, join_group_response_packet, decode_join_group_response,
}

abbrev pub IsSayableProtocol : GroupProtocol → Type 0
IsSayableProtocol p = (length p.name < 2 ^ 15) × IsSayableSlice p.metadata

protocol-Reads :
    (p : GroupProtocol)
    → IsSayableProtocol p
    → Reads decode_group_protocol (encoding (group_protocol_packet p end)) p
unfolding decode_group_protocol
protocol-Reads p s =
    field-Reads get_string _ _ _ p.name p (put_string-Reads p.name s.0)
      (field-Reads get_bytes _ _ _ p.metadata p (put_slice-Reads p.metadata s.1) (done-Reads p))

protocol-IsElement :
    (p : GroupProtocol)
    → IsSayableProtocol p
    → IsElement group_protocol_packet decode_group_protocol p
protocol-IsElement p s = (
  put-Flat (Put.string p.name) _ (put-Flat (Put.bytes p.metadata) _ rest-Flat),
  string_first p.name _,
  protocol-Reads p s,
)

pub record IsSayableJoin (r : JoinGroupRequest) : Type 0 where
  pub group_fits : length r.group_id < 2 ^ 15
  pub session_fits : Fits (2 ^ 31) r.session_timeout
  pub rebalance_fits : Fits (2 ^ 31) r.rebalance_timeout
  pub rebalance_since : since 1 r.version ≡ false → r.rebalance_timeout ≡ pos 0
  pub member_fits : length r.member_id < 2 ^ 15
  pub instance_fits : IsSayableNullable r.group_instance_id
  pub instance_since : since 5 r.version ≡ false → r.group_instance_id ≡ none
  pub type_fits : length r.protocol_type < 2 ^ 15

-- What comes back of the protocols: both the map and the slice.
unfoldable pub with_both : List GroupProtocol → JoinGroupRequest → JoinGroupRequest
with_both ps r = record r { group_protocols = as_map [] ps; ordered_group_protocols = ps }

pub join_group_request-Reads :
    (r : JoinGroupRequest) (ps : List GroupProtocol)
    → IsSayableJoin r
    → length ps ≤ 131070
    → All IsSayableProtocol ps
    → Reads
        (decode_join_group_request r.version)
        (encoding (join_group_head r (put_all group_protocol_packet ps)))
        (with_both ps r)
unfolding decode_join_group_request with_both protocols_of
join_group_request-Reads r ps s few fit =
    let w : JoinGroupRequest = with_both ps r in
    field-Reads get_string _ _ _ r.group_id w (put_string-Reads r.group_id s.group_fits) (
      field-Reads get_int32 _ _ _ r.session_timeout w
        (put_int32-Reads r.session_timeout s.session_fits)
        (field_if-Reads get_int32 _ _ _ r.rebalance_timeout w (since 1 r.version) (pos 0)
          (put_int32-Reads r.rebalance_timeout s.rebalance_fits) s.rebalance_since
          (field-Reads get_string _ _ _ r.member_id w (put_string-Reads r.member_id s.member_fits) (
            field_if-Reads get_nullable_string _ _ _ r.group_instance_id w (since 5 r.version) none
              (put_nullable-Reads r.group_instance_id s.instance_fits) s.instance_since
              (field-Reads get_string _ _ _ r.protocol_type w
                (put_string-Reads r.protocol_type s.type_fits)
                (all-Reads group_protocol_packet decode_group_protocol _ ps w few
                  (All-imp IsSayableProtocol (IsElement group_protocol_packet decode_group_protocol)
                    protocol-IsElement ps fit)
                  (last-Reads (get_each (length ps) decode_group_protocol) (λ qs. with_both qs r)
                    (put_elements group_protocol_packet ps) ps
                    (each-Reads group_protocol_packet decode_group_protocol ps (
                      All-imp IsSayableProtocol
                        (IsElement group_protocol_packet decode_group_protocol) protocol-IsElement
                        ps fit)))))))))

abbrev pub IsSayableMember : ℤ → GroupMember → Type 0
IsSayableMember v m =
    (length m.member_id < 2 ^ 15)
    × IsSayableNullable m.group_instance_id
    × (since 5 v ≡ false → m.group_instance_id ≡ none)
    × IsSayableSlice m.metadata

member-Reads :
    (v : ℤ) (m : GroupMember)
    → IsSayableMember v m
    → Reads (decode_group_member v) (encoding (group_member_packet v m end)) m
unfolding decode_group_member
member-Reads v m (i, n, d, b) =
    field-Reads get_string _ _ _ m.member_id m (put_string-Reads m.member_id i) (
      field_if-Reads get_nullable_string _ _ _ m.group_instance_id m (since 5 v) none
        (put_nullable-Reads m.group_instance_id n) d
        (field-Reads get_bytes _ _ _ m.metadata m (put_slice-Reads m.metadata b) (done-Reads m)))

member-IsElement :
    (v : ℤ) (m : GroupMember)
    → IsSayableMember v m
    → IsElement (group_member_packet v) (decode_group_member v) m
member-IsElement v m s = (
  put-Flat (Put.string m.member_id) _ (
      put_if-Flat (since 5 v) (Put.nullable_string m.group_instance_id) _
        (put-Flat (Put.bytes m.metadata) _ rest-Flat)),
  string_first m.member_id _,
  member-Reads v m s,
)

pub record IsSayableJoinResponse (r : JoinGroupResponse) : Type 0 where
  pub throttle_fits : Fits (2 ^ 31) r.throttle_time
  pub throttle_since : since 2 r.version ≡ false → r.throttle_time ≡ pos 0
  pub err_fits : Fits 0x8000 r.err
  pub generation_fits : Fits (2 ^ 31) r.generation_id
  pub protocol_fits : length r.group_protocol < 2 ^ 15
  pub leader_fits : length r.leader_id < 2 ^ 15
  pub member_fits : length r.member_id < 2 ^ 15
  pub few : length r.members ≤ 131070
  pub members_fit : All (IsSayableMember r.version) r.members

pub join_group_response-Reads :
    (r : JoinGroupResponse)
    → IsSayableJoinResponse r
    → Reads (decode_join_group_response r.version) (encoding (join_group_response_packet r)) r
unfolding decode_join_group_response join_group_response_packet
join_group_response-Reads r s =
    field_if-Reads get_int32 _ _ _ r.throttle_time r (since 2 r.version) (pos 0)
      (put_int32-Reads r.throttle_time s.throttle_fits) s.throttle_since
      (field-Reads get_int16 _ _ _ r.err r (put_int16-Reads r.err s.err_fits) (
        field-Reads get_int32 _ _ _ r.generation_id r
          (put_int32-Reads r.generation_id s.generation_fits)
          (field-Reads get_string _ _ _ r.group_protocol r
            (put_string-Reads r.group_protocol s.protocol_fits)
            (field-Reads get_string _ _ _ r.leader_id r (put_string-Reads r.leader_id s.leader_fits)
              (field-Reads get_string _ _ _ r.member_id r
                (put_string-Reads r.member_id s.member_fits)
                (last-Reads (get_made (decode_group_member r.version))
                  (λ ms. record r { members = ms })
                  (put_all (group_member_packet r.version) r.members) r.members
                  (made-Reads (group_member_packet r.version) (decode_group_member r.version)
                    r.members s.few
                    (All-imp (IsSayableMember r.version)
                      (IsElement (group_member_packet r.version) (decode_group_member r.version))
                      (member-IsElement r.version) r.members s.members_fit))))))))

NotEmpty : List GroupProtocol → Type 0
NotEmpty ps = (q : GroupProtocol) × (qs : List GroupProtocol) × (ps ≡ q ∷ qs)

set_protocol-NotEmpty : (p : GroupProtocol) (qs : List GroupProtocol) → NotEmpty (set_protocol p qs)
unfolding set_protocol NotEmpty
set_protocol-NotEmpty p [] = (p, [], refl)
set_protocol-NotEmpty p (q ∷ qs) =
    if_both NotEmpty (same_bytes q.name p.name) (p ∷ qs) (q ∷ set_protocol p qs) (p, qs, refl)
      (q, set_protocol p qs, refl)

as_map-NotEmpty : (acc ps : List GroupProtocol) → NotEmpty acc → NotEmpty (as_map acc ps)
unfolding as_map
as_map-NotEmpty acc [] h = h
as_map-NotEmpty acc (p ∷ ps) h =
    as_map-NotEmpty (set_protocol p acc) ps (set_protocol-NotEmpty p acc)

-- With a protocol in both, there is no packet.
pub join_group_request_packet-with_both :
    (p : GroupProtocol) (ps : List GroupProtocol) (r : JoinGroupRequest)
    → join_group_request_packet (with_both (p ∷ ps) r) ≡ none
unfolding join_group_request_packet with_both as_map NotEmpty chosen_protocols
join_group_request_packet-with_both p ps r =
    let (q, qs, e) = as_map-NotEmpty (set_protocol p []) ps (set_protocol-NotEmpty p []) in
    ap (λ (ms : List GroupProtocol). with_protocols r (chosen_protocols ms (p ∷ ps))) e
