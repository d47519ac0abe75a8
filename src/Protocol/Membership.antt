-- ===== src/Protocol/Membership.antt =====
-- Joining a group: join_group_request.go and join_group_response.go.
use sarama.Base.{ℕ, Bool, true, false, ◌&&◌, List, [], ◌∷◌, Option, none, some, if◌then◌else◌, ◌==◌}
use sarama.Base.Int.{ℤ, pos, negsuc}
use sarama.Wire.Decode.Monad.{M, ◌>>=◌, pure}
use sarama.Wire.Decode.Primitives.{get_int16, get_int32, get_array_length}
use sarama.Wire.Decode.Collections.{get_bytes, get_string, get_nullable_string}
use sarama.Wire.Encode.Packet.{Put, Packet, put}
use sarama.Protocol.Fields.{since, put_if, get_if, put_elements, get_each, put_all, get_made}

pub record GroupProtocol : Type 0 where
  pub name : List ℕ
  pub metadata : Option (List ℕ)

abbrev pub group_protocol_packet : GroupProtocol → Packet → Packet
group_protocol_packet p rest = put (Put.string p.name) (put (Put.bytes p.metadata) rest)

unfoldable pub decode_group_protocol : M GroupProtocol
decode_group_protocol = do n ← get_string; d ← get_bytes; pure (record { name = n; metadata = d })

-- The map GroupProtocols is the list of its entries, each name once.
pub record JoinGroupRequest : Type 0 where
  pub version : ℤ
  pub group_id : List ℕ
  pub session_timeout : ℤ
  pub rebalance_timeout : ℤ
  pub member_id : List ℕ
  pub group_instance_id : Option (List ℕ)
  pub protocol_type : List ℕ
  pub group_protocols : List GroupProtocol
  pub ordered_group_protocols : List GroupProtocol

-- What stands before the protocols.
abbrev pub join_group_head : JoinGroupRequest → Packet → Packet
join_group_head r rest = put (Put.string r.group_id) (
    put (Put.int32 r.session_timeout) (
      put_if (since 1 r.version) (Put.int32 r.rebalance_timeout) (
        put (Put.string r.member_id) (
          put_if (since 5 r.version) (Put.nullable_string r.group_instance_id)
            (put (Put.string r.protocol_type) rest)))))

-- The protocols to write, of the map or of the slice; `none` is the error where both are given.
unfoldable pub chosen_protocols :
    List GroupProtocol → List GroupProtocol → Option (List GroupProtocol)
chosen_protocols [] os = some os
chosen_protocols (p ∷ ps) [] = some (p ∷ ps)
chosen_protocols (p ∷ ps) (o ∷ os) = none

abbrev pub with_protocols : JoinGroupRequest → Option (List GroupProtocol) → Option Packet
with_protocols r none = none
with_protocols r (some ps) = some (join_group_head r (put_all group_protocol_packet ps))

unfoldable pub join_group_request_packet : JoinGroupRequest → Option Packet
unfolding chosen_protocols put_elements
join_group_request_packet r =
    with_protocols r (chosen_protocols r.group_protocols r.ordered_group_protocols)

-- The name as a Go string, compared byte by byte.
abbrev pub same_bytes : List ℕ → List ℕ → Bool
same_bytes [] [] = true
same_bytes [] (b ∷ bs) = false
same_bytes (a ∷ as') [] = false
same_bytes (a ∷ as') (b ∷ bs) = a == b && same_bytes as' bs

-- `r.GroupProtocols[protocol.Name] = protocol.Metadata`
unfoldable pub set_protocol : GroupProtocol → List GroupProtocol → List GroupProtocol
set_protocol p [] = p ∷ []
set_protocol p (q ∷ qs) = if same_bytes q.name p.name then p ∷ qs else q ∷ set_protocol p qs

unfoldable pub as_map : List GroupProtocol → List GroupProtocol → List GroupProtocol
unfolding set_protocol
as_map acc [] = acc
as_map acc (p ∷ ps) = as_map (set_protocol p acc) ps

-- A length of 0 or less gives no protocols.
unfoldable pub protocols_of : ℤ → M (List GroupProtocol)
unfolding get_each decode_group_protocol
protocols_of (negsuc n) = pure []
protocols_of (pos n) = get_each n decode_group_protocol

unfoldable pub decode_join_group_request : ℤ → M JoinGroupRequest
unfolding protocols_of as_map
decode_join_group_request v = do
  g ← get_string
  t ← get_int32
  b ← get_if (since 1 v) get_int32 (pos 0)
  m ← get_string
  i ← get_if (since 5 v) get_nullable_string none
  y ← get_string
  n ← get_array_length
  ps ← protocols_of n
  pure (record {
    version = v;
    group_id = g;
    session_timeout = t;
    rebalance_timeout = b;
    member_id = m;
    group_instance_id = i;
    protocol_type = y;
    group_protocols = as_map [] ps;
    ordered_group_protocols = ps;
  })

pub record GroupMember : Type 0 where
  pub member_id : List ℕ
  pub group_instance_id : Option (List ℕ)
  pub metadata : Option (List ℕ)

abbrev pub group_member_packet : ℤ → GroupMember → Packet → Packet
group_member_packet v m rest =
    put (Put.string m.member_id) (
      put_if (since 5 v) (Put.nullable_string m.group_instance_id)
        (put (Put.bytes m.metadata) rest))

unfoldable pub decode_group_member : ℤ → M GroupMember
decode_group_member v = do
  m ← get_string
  i ← get_if (since 5 v) get_nullable_string none
  d ← get_bytes
  pure (record { member_id = m; group_instance_id = i; metadata = d })

pub record JoinGroupResponse : Type 0 where
  pub version : ℤ
  pub throttle_time : ℤ
  pub err : ℤ
  pub generation_id : ℤ
  pub group_protocol : List ℕ
  pub leader_id : List ℕ
  pub member_id : List ℕ
  pub members : List GroupMember

unfoldable pub join_group_response_packet : JoinGroupResponse → Packet
unfolding put_elements
join_group_response_packet r = put_if (since 2 r.version) (Put.int32 r.throttle_time) (
    put (Put.int16 r.err) (
      put (Put.int32 r.generation_id) (
        put (Put.string r.group_protocol) (
          put (Put.string r.leader_id)
            (put (Put.string r.member_id) (put_all (group_member_packet r.version) r.members))))))

-- A length of 0 is no slice; a negative one panics in `make`.
unfoldable pub decode_join_group_response : ℤ → M JoinGroupResponse
unfolding decode_group_member get_made
decode_join_group_response v = do
  t ← get_if (since 2 v) get_int32 (pos 0)
  e ← get_int16
  n ← get_int32
  p ← get_string
  l ← get_string
  m ← get_string
  ms ← get_made (decode_group_member v)
  pure (record {
    version = v;
    throttle_time = t;
    err = e;
    generation_id = n;
    group_protocol = p;
    leader_id = l;
    member_id = m;
    members = ms;
  })
