-- ===== src/Protocol/Again.antt =====
-- A request to join that is encoded again: decode and encode of JoinGroupRequest (join_group_request.go).
use sarama.Base.{ℕ, ◌≤◌, ◌≡◌, ap, List, ◌∷◌, none, some, length, All}
use sarama.Wire.Decode.Monad
use sarama.Wire.Encode.Packet.{Packet}
use sarama.Wire.Encode.Packet
use sarama.Wire.Encode.Passes.{encode}
use sarama.Wire.Encode.Encoding.{encoding}
use sarama.Protocol.Fields.{put_all, versioned_decode}
use sarama.Protocol.Membership.{
  GroupProtocol, JoinGroupRequest, chosen_protocols, with_protocols, join_group_head,
  join_group_request_packet, decode_join_group_request, group_protocol_packet,
}
use sarama.Protocol.MembershipRoundTrip.{
  IsSayableProtocol, IsSayableJoin, with_both, join_group_request-Reads,
  join_group_request_packet-with_both,
}
use sarama.Protocol.Puttable.{join_group_head-Puttable}
use sarama.Protocol.EndToEnd.{encode-Puttable, versioned_decode-Reads}

-- The bytes of a request to join with these protocols.
abbrev pub join_bytes : JoinGroupRequest → List GroupProtocol → List ℕ
join_bytes r ps = encoding (join_group_head r (put_all group_protocol_packet ps))

-- A request to join that has at least one protocol, given as a map or as a slice and not as both, and
-- whose lengths and numbers fit their fields and its version, is encoded, if it is not too large, and
-- its bytes are decoded; but what decode leaves is refused by encode.
pub join_group_request_packet-decode :
    (max : ℕ) (r : JoinGroupRequest) (p : GroupProtocol) (ps : List GroupProtocol)
    → IsSayableJoin r
    → chosen_protocols r.group_protocols r.ordered_group_protocols ≡ some (p ∷ ps)
    → length (p ∷ ps) ≤ 131070
    → All IsSayableProtocol (p ∷ ps)
    → length (join_bytes r (p ∷ ps)) ≤ max
    → (sent : Packet) × (bs : List ℕ) × (read : JoinGroupRequest) × (join_group_request_packet r
        ≡ some sent)
      × (encode max sent ≡ Packet.ok bs)
      × (versioned_decode (decode_join_group_request r.version) bs ≡ Monad.ok read)
      × (join_group_request_packet read ≡ none)
join_group_request_packet-decode max r p ps s e few fit l =
    let sent = join_group_head r (put_all group_protocol_packet (p ∷ ps)) in
    (
      sent,
      encoding sent,
      with_both (p ∷ ps) r,
      unfold join_group_request_packet in ap (with_protocols r) e,
      encode-Puttable max sent (join_group_head-Puttable r (p ∷ ps) s few fit) l,
      versioned_decode-Reads (decode_join_group_request r.version) (encoding sent)
          (with_both (p ∷ ps) r) (join_group_request-Reads r (p ∷ ps) s few fit),
      join_group_request_packet-with_both p ps r,
    )
