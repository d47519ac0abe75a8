-- ===== src/Protocol/EndToEnd.antt =====
-- From a message to its bytes and back.
use sarama.Base.{
  ℕ, ◌≤◌, ◌≡◌, refl, sym, ap, subst, ◌∙◌, List, [], ◌∷◌, Option, none, some, length, append-nil,
  All, ==_iff, le→ltb,
}
use sarama.Wire.Decode.Monad
use sarama.Wire.Decode.Monad.{M, Decoder, Result, ◌>>=◌, pure}
use sarama.Wire.Encode.Packet
use sarama.Wire.Encode.Packet.{Put, Packet, end, put, Outcome, invalid_request_size}
use sarama.Wire.Encode.Passes.{encode}
use sarama.Wire.Encode.Agree.{encode-encoding, fresh}
use sarama.Wire.Encode.Encoding.{encoding}
use sarama.Wire.RoundTrip.Reads.{Reads, map-Reads}
use sarama.Protocol.Group.{
  heartbeat_request_packet, decode_heartbeat_request, heartbeat_response_packet,
  decode_heartbeat_response, sync_group_request_packet, decode_sync_group_request,
  sync_group_response_packet, decode_sync_group_response,
}
use sarama.Protocol.Membership.{
  GroupProtocol, JoinGroupRequest, chosen_protocols, with_protocols, join_group_head,
  join_group_request_packet, decode_join_group_request, join_group_response_packet,
  decode_join_group_response, group_protocol_packet,
}
use sarama.Protocol.Leave.{
  leave_group_request_packet, decode_leave_group_request, leave_group_response_packet,
  decode_leave_group_response,
}
use sarama.Protocol.GroupMessage.{
  GroupMessage, heartbeat_request, heartbeat_response, join_group_request, join_group_response,
  leave_group_request, leave_group_response, sync_group_request, sync_group_response,
  message_packet, decode_like,
}
use sarama.Protocol.GroupRoundTrip.{
  IsSayableHeartbeat, heartbeat_request-Reads, IsSayableHeartbeatResponse, heartbeat_response-Reads,
  IsSayableSync, sync_group_request-Reads, IsSayableSyncResponse, sync_group_response-Reads,
}
use sarama.Protocol.MembershipRoundTrip.{
  IsSayableProtocol, IsSayableJoin, with_both, join_group_request-Reads, IsSayableJoinResponse,
  join_group_response-Reads,
}
use sarama.Protocol.LeaveRoundTrip.{
  IsSayableLeave, leave_group_request-Reads, IsSayableLeaveResponse, leave_group_response-Reads,
}
use sarama.Protocol.Puttable.{
  Puttable, Puttable-AllKnown, prep-Puttable, heartbeat_request-Puttable,
  heartbeat_response-Puttable, join_group_head-Puttable, join_group_response-Puttable,
  leave_group_request-Puttable, leave_group_response-Puttable, sync_group_request-Puttable,
  sync_group_response-Puttable,
}
use sarama.Protocol.Fields.{put_all, used_up, versioned_decode}

-- What can be put is encoded, as the wire format, if it is not too large.
pub encode-Puttable :
    (max : ℕ) (p : Packet)
    → Puttable p
    → length (encoding p) ≤ max
    → encode max p ≡ Packet.ok (encoding p)
encode-Puttable max p h l =
    let (x, e) = prep-Puttable p fresh h in
    encode-encoding max p (Puttable-AllKnown p h) ∙ rw (e, le→ltb max (length (encoding p)) l) refl

-- A message that is read where it stands is decoded from its bytes alone.
pub versioned_decode-Reads :
    {A : Type 0} (m : M A) (bs : List ℕ) (v : A) → Reads m bs v → versioned_decode m bs ≡ Monad.ok v
unfolding versioned_decode
versioned_decode-Reads m bs v h =
    ap (λ (raw : List ℕ). used_up (length bs) (m (record { raw = raw; off = 0; stack = [] })))
      (sym (append-nil bs))
    ∙ ap (used_up (length bs)) (h [] [] [])
    ∙ rw ((==_iff (length bs) (length bs)).1 refl) refl

-- What every version of a message may hold.
abbrev pub IsSayable : GroupMessage → Type 0
IsSayable (heartbeat_request r) = IsSayableHeartbeat r
IsSayable (heartbeat_response r) = IsSayableHeartbeatResponse r
IsSayable (join_group_request r) =
    IsSayableJoin r
    × (length r.group_protocols ≤ 131070)
    × All IsSayableProtocol r.group_protocols
    × (length r.ordered_group_protocols ≤ 131070)
    × All IsSayableProtocol r.ordered_group_protocols
IsSayable (join_group_response r) = IsSayableJoinResponse r
IsSayable (leave_group_request r) = IsSayableLeave r
IsSayable (leave_group_response r) = IsSayableLeaveResponse r
IsSayable (sync_group_request r) = IsSayableSync r
IsSayable (sync_group_response r) = IsSayableSyncResponse r

-- A request to join comes back with its protocols both as a map and as a slice.
unfoldable pub read_join : JoinGroupRequest → Option (List GroupProtocol) → JoinGroupRequest
unfolding with_both
read_join r none = r
read_join r (some ps) = with_both ps r

unfoldable pub read_back : GroupMessage → GroupMessage
unfolding read_join chosen_protocols
read_back (join_group_request r) =
    join_group_request (read_join r (chosen_protocols r.group_protocols r.ordered_group_protocols))
read_back (heartbeat_request r) = heartbeat_request r
read_back (heartbeat_response r) = heartbeat_response r
read_back (join_group_response r) = join_group_response r
read_back (leave_group_request r) = leave_group_request r
read_back (leave_group_response r) = leave_group_response r
read_back (sync_group_request r) = sync_group_request r
read_back (sync_group_response r) = sync_group_response r

abbrev FewSayable : Option (List GroupProtocol) → Type 0
FewSayable none = Unit {0}
FewSayable (some ps) = (length ps ≤ 131070) × All IsSayableProtocol ps

-- What is proved of a packet: it can be put, and its bytes are read back.
abbrev Faithful : GroupMessage → Option Packet → Type 0
Faithful m none = Unit {0}
Faithful m (some p) = Puttable p × Reads (decode_like m) (encoding p) (read_back m)

join-Faithful :
    (r : JoinGroupRequest) (o : Option (List GroupProtocol))
    → IsSayableJoin r
    → chosen_protocols r.group_protocols r.ordered_group_protocols ≡ o
    → FewSayable o
    → Faithful (join_group_request r) (with_protocols r o)
unfolding decode_like read_back read_join
join-Faithful r none s e f = tt
join-Faithful r (some ps) s e f = (
  join_group_head-Puttable r ps s f.0 f.1,
  subst
      (λ (o : Option (List GroupProtocol)).
        Reads (decode_like (join_group_request r))
          (encoding (join_group_head r (put_all group_protocol_packet ps)))
          (join_group_request (read_join r o)))
      (sym e)
      (map-Reads (decode_join_group_request r.version) join_group_request _ (with_both ps r)
        (join_group_request-Reads r ps s f.0 f.1)),
)

chosen-FewSayable :
    (ps os : List GroupProtocol)
    → (length ps ≤ 131070) × All IsSayableProtocol ps
    → (length os ≤ 131070) × All IsSayableProtocol os
    → FewSayable (chosen_protocols ps os)
unfolding chosen_protocols
chosen-FewSayable [] os h k = k
chosen-FewSayable (p ∷ ps) [] h k = h
chosen-FewSayable (p ∷ ps) (o ∷ os) h k = tt

message-Faithful : (m : GroupMessage) → IsSayable m → Faithful m (message_packet m)
unfolding message_packet decode_like read_back
message-Faithful (join_group_request r) (s, pn, pf, on, of_each) =
    unfold join_group_request_packet in
    join-Faithful r (chosen_protocols r.group_protocols r.ordered_group_protocols) s refl
      (chosen-FewSayable r.group_protocols r.ordered_group_protocols (pn, pf) (on, of_each))
message-Faithful (heartbeat_request r) s = (
  heartbeat_request-Puttable r s,
  map-Reads (decode_heartbeat_request r.version) heartbeat_request
      (encoding (heartbeat_request_packet r)) r (heartbeat_request-Reads r s),
)
message-Faithful (heartbeat_response r) s = (
  heartbeat_response-Puttable r s,
  map-Reads (decode_heartbeat_response r.version) heartbeat_response
      (encoding (heartbeat_response_packet r)) r (heartbeat_response-Reads r s),
)
message-Faithful (join_group_response r) s = (
  join_group_response-Puttable r s,
  map-Reads (decode_join_group_response r.version) join_group_response
      (encoding (join_group_response_packet r)) r (join_group_response-Reads r s),
)
message-Faithful (leave_group_request r) s = (
  leave_group_request-Puttable r s,
  map-Reads (decode_leave_group_request r.version) leave_group_request
      (encoding (leave_group_request_packet r)) r (leave_group_request-Reads r s),
)
message-Faithful (leave_group_response r) s = (
  leave_group_response-Puttable r s,
  map-Reads (decode_leave_group_response r.version) leave_group_response
      (encoding (leave_group_response_packet r)) r (leave_group_response-Reads r s),
)
message-Faithful (sync_group_request r) s = (
  sync_group_request-Puttable r s,
  map-Reads (decode_sync_group_request r.version) sync_group_request
      (encoding (sync_group_request_packet r)) r (sync_group_request-Reads r s),
)
message-Faithful (sync_group_response r) s = (
  sync_group_response-Puttable r s,
  map-Reads (decode_sync_group_response r.version) sync_group_response
      (encoding (sync_group_response_packet r)) r (sync_group_response-Reads r s),
)

-- A message of a group that has a packet, not too large for a request, is encoded, and its bytes are
-- decoded, by the decode method of its type and version, as the message that was encoded; only a
-- request to join comes back with its protocols both as a map and as a slice. The lengths and the
-- numbers must fit their fields, and what a version has no field for must be at its default.
pub versioned_decode-encode :
    (max : ℕ) (m : GroupMessage) (p : Packet)
    → IsSayable m
    → message_packet m ≡ some p
    → length (encoding p) ≤ max
    → (bs : List ℕ) × (encode max p ≡ Packet.ok bs)
      × (versioned_decode (decode_like m) bs ≡ Monad.ok (read_back m))
versioned_decode-encode max m p s e l =
    let (puttable, reads) = subst (Faithful m) e (message-Faithful m s) in
    (
      encoding p,
      encode-Puttable max p puttable l,
      versioned_decode-Reads (decode_like m) (encoding p) (read_back m) reads,
    )
