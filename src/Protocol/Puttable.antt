-- ===== src/Protocol/Puttable.antt =====
-- The messages of a group can be encoded: nothing in them is too long, and they have no checksum.
use sarama.Base.{
  ℕ, ◌+◌, ◌^◌, ◌≤◌, ◌<◌, ◌≡◌, refl, Bool, List, [], ◌∷◌, Option, none, some, length, All, if_both,
  le→ltb, arith,
}
use sarama.Base.Int.{ℤ, pos}
use sarama.Wire.Encode.Packet.{Put, Packet, end, put, framed, ok}
use sarama.Wire.Encode.Prep.{
  PrepEncoder, prep, prep_put, prep_string, prep_raw_bytes, prep_array_length,
}
use sarama.Wire.Encode.Counted.{AllKnown}
use sarama.Wire.RoundTrip.Written.{Fine}
use sarama.Protocol.Fields.{since, put_if, put_elements, put_all}
use sarama.Protocol.Rules.{IsSayableNullable, IsSayableSlice}
use sarama.Protocol.Group.{
  HeartbeatRequest, heartbeat_request_packet, HeartbeatResponse, heartbeat_response_packet,
  SyncGroupRequest, sync_group_request_packet, SyncGroupResponse, sync_group_response_packet,
  assignment_packet,
}
use sarama.Protocol.Membership.{
  GroupProtocol, JoinGroupRequest, join_group_head, JoinGroupResponse, join_group_response_packet,
  group_protocol_packet, group_member_packet,
}
use sarama.Protocol.Leave.{
  LeaveGroupRequest, leave_group_request_packet, LeaveGroupResponse, leave_group_response_packet,
  member_identity_packet, member_response_packet,
}
use sarama.Protocol.GroupRoundTrip.{
  IsSayableHeartbeat, IsSayableHeartbeatResponse, IsSayableSync, IsSayableSyncResponse,
  IsSayableAssignment,
}
use sarama.Protocol.MembershipRoundTrip.{
  IsSayableProtocol, IsSayableJoin, IsSayableJoinResponse, IsSayableMember,
}
use sarama.Protocol.LeaveRoundTrip.{
  IsSayableLeave, IsSayableLeaveResponse, IsSayableIdentity, IsSayableMemberResponse,
}

abbrev pub Puttable : Packet → Type 0
Puttable end = Unit {0}
Puttable (put p rest) = Fine p × Puttable rest
Puttable (framed f body rest) = ⊥

pub Puttable-AllKnown : (p : Packet) → Puttable p → AllKnown p
Puttable-AllKnown end h = tt
Puttable-AllKnown (put p rest) h = Puttable-AllKnown rest h.1
Puttable-AllKnown (framed f body rest) h = absurd h

pub prep-Puttable :
    (p : Packet) (pe : PrepEncoder) → Puttable p → (x : PrepEncoder × Packet) × (prep p pe ≡ ok x)
unfolding prep
prep-Puttable end pe h = ((pe, end), refl)
prep-Puttable (put p rest) pe h =
    let (k, e) = h.0 pe.length in
    let (x, f) = prep-Puttable rest (record pe { length = k }) h.1 in
    ((x.0, put p x.1), rw (e, f) refl)
prep-Puttable (framed f body rest) pe h = absurd h

pub int16-Fine : (z : ℤ) → Fine (Put.int16 z)
unfolding prep_put
int16-Fine z n = (n + 2, refl)

pub int32-Fine : (z : ℤ) → Fine (Put.int32 z)
unfolding prep_put
int32-Fine z n = (n + 4, refl)

pub string-Fine : (s : List ℕ) → length s < 2 ^ 15 → Fine (Put.string s)
unfolding prep_put prep_string
string-Fine s h n = (n + 2 + length s, rw (le→ltb 32767 (length s) (omega (arith, h))) refl)

nullable-Fine : (s : Option (List ℕ)) → IsSayableNullable s → Fine (Put.nullable_string s)
unfolding prep_put prep_string
nullable-Fine none h n = (n + 2, refl)
nullable-Fine (some s) h n =
    (n + 2 + length s, rw (le→ltb 32767 (length s) (omega (arith, h))) refl)

slice-Fine : (s : Option (List ℕ)) → IsSayableSlice s → Fine (Put.bytes s)
unfolding prep_put prep_raw_bytes
slice-Fine none h n = (n + 4, refl)
slice-Fine (some s) h n =
    (n + 4 + length s, rw (le→ltb 2147483647 (length s) (omega (arith, h))) refl)

array_length-Fine : (k : ℕ) → k ≤ 131070 → Fine (Put.array_length (pos k))
unfolding prep_put prep_array_length
array_length-Fine k h n = (n + 4, rw (le→ltb 2147483647 k (omega (arith, h))) refl)

put_if-Puttable :
    (b : Bool) (p : Put) (rest : Packet) → Fine p → Puttable rest → Puttable (put_if b p rest)
put_if-Puttable b p rest h k = if_both Puttable b (put p rest) rest (h, k) k

put_elements-Puttable :
    {A : Type 0} (P : A → Type 0) (f : A → Packet → Packet) (xs : List A)
    → ((x : A) (rest : Packet) → P x → Puttable rest → Puttable (f x rest))
    → All P xs
    → Puttable (put_elements f xs)
unfolding put_elements
put_elements-Puttable P f [] h k = tt
put_elements-Puttable P f (x ∷ xs) h k =
    h x (put_elements f xs) k.0 (put_elements-Puttable P f xs h k.1)

pub heartbeat_request-Puttable :
    (r : HeartbeatRequest) → IsSayableHeartbeat r → Puttable (heartbeat_request_packet r)
unfolding heartbeat_request_packet
heartbeat_request-Puttable r s = (
  string-Fine r.group_id s.group_fits,
  (
    int32-Fine r.generation_id,
    (
      string-Fine r.member_id s.member_fits,
      put_if-Puttable (since 3 r.version) _ end (nullable-Fine r.group_instance_id s.instance_fits)
          tt,
    ),
  ),
)

pub heartbeat_response-Puttable :
    (r : HeartbeatResponse) → IsSayableHeartbeatResponse r → Puttable (heartbeat_response_packet r)
unfolding heartbeat_response_packet
heartbeat_response-Puttable r s =
    put_if-Puttable (since 1 r.version) _ _ (int32-Fine r.throttle_time) (int16-Fine r.err, tt)

pub join_group_head-Puttable :
    (r : JoinGroupRequest) (ps : List GroupProtocol)
    → IsSayableJoin r
    → length ps ≤ 131070
    → All IsSayableProtocol ps
    → Puttable (join_group_head r (put_all group_protocol_packet ps))
join_group_head-Puttable r ps s few fit = (
  string-Fine r.group_id s.group_fits,
  (
    int32-Fine r.session_timeout,
    put_if-Puttable (since 1 r.version) _ _ (int32-Fine r.rebalance_timeout) (
      string-Fine r.member_id s.member_fits,
      put_if-Puttable (since 5 r.version) _ _ (nullable-Fine r.group_instance_id s.instance_fits) (
        string-Fine r.protocol_type s.type_fits,
        (
          array_length-Fine (length ps) few,
          put_elements-Puttable IsSayableProtocol group_protocol_packet ps
              (λ p rest h k. (string-Fine p.name h.0, (slice-Fine p.metadata h.1, k))) fit,
        ),
      ),
    ),
  ),
)

pub join_group_response-Puttable :
    (r : JoinGroupResponse) → IsSayableJoinResponse r → Puttable (join_group_response_packet r)
unfolding join_group_response_packet
join_group_response-Puttable r s =
    put_if-Puttable (since 2 r.version) _ _ (int32-Fine r.throttle_time) (
      int16-Fine r.err,
      (
        int32-Fine r.generation_id,
        (
          string-Fine r.group_protocol s.protocol_fits,
          (
            string-Fine r.leader_id s.leader_fits,
            (
              string-Fine r.member_id s.member_fits,
              (
                array_length-Fine (length r.members) s.few,
                put_elements-Puttable (IsSayableMember r.version) (group_member_packet r.version)
                    r.members
                    (λ m rest (i, n, d, b) k. (
                      string-Fine m.member_id i,
                      put_if-Puttable (since 5 r.version) _ _ (nullable-Fine m.group_instance_id n)
                          (slice-Fine m.metadata b, k),
                    ))
                    s.members_fit,
              ),
            ),
          ),
        ),
      ),
    )

pub leave_group_request-Puttable :
    (r : LeaveGroupRequest) → IsSayableLeave r → Puttable (leave_group_request_packet r)
unfolding leave_group_request_packet
leave_group_request-Puttable r s = (
  string-Fine r.group_id s.group_fits,
  if_both Puttable (since 3 r.version) (put_all member_identity_packet r.members)
      (put (Put.string r.member_id) end)
      (
        array_length-Fine (length r.members) s.few,
        put_elements-Puttable IsSayableIdentity member_identity_packet r.members
            (λ m rest h k.
              (string-Fine m.member_id h.0, (nullable-Fine m.group_instance_id h.1, k)))
            s.members_fit,
      )
      (string-Fine r.member_id s.member_fits, tt),
)

pub leave_group_response-Puttable :
    (r : LeaveGroupResponse) → IsSayableLeaveResponse r → Puttable (leave_group_response_packet r)
unfolding leave_group_response_packet
leave_group_response-Puttable r s =
    put_if-Puttable (since 1 r.version) _ _ (int32-Fine r.throttle_time) (
      int16-Fine r.err,
      if_both Puttable (since 3 r.version) (put_all member_response_packet r.members) end
          (
            array_length-Fine (length r.members) s.few,
            put_elements-Puttable IsSayableMemberResponse member_response_packet r.members
                (λ m rest (i, n, e) k. (
                  string-Fine m.member_id i,
                  (nullable-Fine m.group_instance_id n, (int16-Fine m.err, k)),
                ))
                s.members_fit,
          )
          tt,
    )

pub sync_group_request-Puttable :
    (r : SyncGroupRequest) → IsSayableSync r → Puttable (sync_group_request_packet r)
unfolding sync_group_request_packet
sync_group_request-Puttable r s = (
  string-Fine r.group_id s.group_fits,
  (
    int32-Fine r.generation_id,
    (
      string-Fine r.member_id s.member_fits,
      put_if-Puttable (since 3 r.version) _ _ (nullable-Fine r.group_instance_id s.instance_fits) (
        array_length-Fine (length r.group_assignments) s.few,
        put_elements-Puttable IsSayableAssignment assignment_packet r.group_assignments
            (λ a rest h k. (string-Fine a.member_id h.0, (slice-Fine a.assignment h.1, k)))
            s.assignments_fit,
      ),
    ),
  ),
)

pub sync_group_response-Puttable :
    (r : SyncGroupResponse) → IsSayableSyncResponse r → Puttable (sync_group_response_packet r)
unfolding sync_group_response_packet
sync_group_response-Puttable r s =
    put_if-Puttable (since 1 r.version) _ _ (int32-Fine r.throttle_time)
      (int16-Fine r.err, (slice-Fine r.member_assignment s.assignment_fits, tt))
