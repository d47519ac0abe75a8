-- ===== src/Protocol/Runs.antt =====
-- Runs of the messages of a group.
use sarama.Base.{length, ◌≤◌, ℕ, ◌≡◌, refl, List, [], ◌∷◌, none, some, arith}
use sarama.Base.Int.{pos}
use sarama.Wire.Bytes.{be}
use sarama.Wire.Decode.Monad
use sarama.Wire.Decode.Monad.{M}
use sarama.Wire.Encode.Packet
use sarama.Wire.Encode.Packet.{Packet}
use sarama.Wire.Encode.Prep.{prep, prep_put}
use sarama.Wire.Encode.Real.{real_put, write, put_raw_bytes}
use sarama.Wire.Decode.Primitives.{get_int16, get_int32, get_array_length}
use sarama.Wire.Decode.Collections.{get_string, get_string_length}
use sarama.Wire.Encode.Encoding.{encoding, put_bytes}
use sarama.Wire.Encode.Passes.{encode, real}
use sarama.Protocol.Fields.{versioned_decode, put_elements}
use sarama.Protocol.Membership.{
  GroupProtocol, JoinGroupRequest, join_group_request_packet, decode_join_group_response,
  chosen_protocols, decode_join_group_request,
}
use sarama.Protocol.Again.{join_bytes, join_group_request_packet-decode}
use sarama.Protocol.GroupMessage.{heartbeat_request, message_packet, decode_like}
use sarama.Protocol.Group.{HeartbeatRequest, heartbeat_request_packet}
use sarama.Protocol.EndToEnd.{read_back, versioned_decode-encode}

abbrev beat : HeartbeatRequest
beat = record {
  version = pos 3;
  group_id = 103 ∷ 49 ∷ [];
  generation_id = pos 7;
  member_id = 109 ∷ [];
  group_instance_id = some (105 ∷ []);
}

abbrev beat_bytes : List ℕ
beat_bytes = 0 ∷ 2 ∷ 103 ∷ 49 ∷ 0 ∷ 0 ∷ 0 ∷ 7 ∷ 0 ∷ 1 ∷ 109 ∷ 0 ∷ 1 ∷ 105 ∷ []

beat-encode : encode 100 (heartbeat_request_packet beat) ≡ Packet.ok beat_bytes
unfolding encode heartbeat_request_packet prep prep_put real be real_put write put_raw_bytes
beat-encode = refl

beat_packet : message_packet (heartbeat_request beat) ≡ some (heartbeat_request_packet beat)
unfolding message_packet
beat_packet = refl

beat-fits : length (encoding (heartbeat_request_packet beat)) ≤ 100
unfolding encoding heartbeat_request_packet put_bytes be
beat-fits = omega arith

versioned_decode-encode_example :
    (bs : List ℕ) × (encode 100 (heartbeat_request_packet beat) ≡ Packet.ok bs)
    × (versioned_decode (decode_like (heartbeat_request beat)) bs
        ≡ Monad.ok (read_back (heartbeat_request beat)))
versioned_decode-encode_example =
    versioned_decode-encode 100 (heartbeat_request beat) (heartbeat_request_packet beat)
      (record {
        group_fits = omega arith;
        generation_fits = omega arith;
        member_fits = omega arith;
        instance_fits = omega arith;
        instance_since = λ e. ground (arith, e);
      })
      beat_packet beat-fits

-- A response to join with a length of -1 for its members: `make` panics.
negative_members :
    versioned_decode
      (decode_join_group_response (pos 0))
      (0 ∷ 0 ∷ 0 ∷ 0 ∷ 0 ∷ 1 ∷ 0 ∷ 0 ∷ 0 ∷ 0 ∷ 0 ∷ 0 ∷ 255 ∷ 255 ∷ 255 ∷ 255 ∷ [])
    ≡ Monad.panic
unfolding versioned_decode decode_join_group_response get_int16 get_int32 get_string
    get_string_length get_array_length
negative_members = refl

abbrev range : GroupProtocol
range = record { name = 114 ∷ []; metadata = none }

abbrev joining : JoinGroupRequest
joining = record {
  version = pos 5;
  group_id = 103 ∷ [];
  session_timeout = pos 10000;
  rebalance_timeout = pos 60000;
  member_id = [];
  group_instance_id = none;
  protocol_type = 99 ∷ [];
  group_protocols = [];
  ordered_group_protocols = range ∷ [];
}

joining-fits : length (join_bytes joining (range ∷ [])) ≤ 100
unfolding encoding put_elements put_bytes be
joining-fits = omega arith

join_group_request_packet-decode_example :
    (sent : Packet) × (bs : List ℕ) × (read : JoinGroupRequest) × (join_group_request_packet joining
      ≡ some sent)
    × (encode 100 sent ≡ Packet.ok bs)
    × (versioned_decode (decode_join_group_request joining.version) bs ≡ Monad.ok read)
    × (join_group_request_packet read ≡ none)
unfolding chosen_protocols
join_group_request_packet-decode_example =
    join_group_request_packet-decode 100 joining range []
      (record {
        group_fits = omega arith;
        session_fits = omega arith;
        rebalance_fits = omega arith;
        rebalance_since = λ e. ground (arith, e);
        member_fits = omega arith;
        instance_fits = ground arith;
        instance_since = λ e. ground (arith, e);
        type_fits = omega arith;
      })
      refl (omega arith) ((omega arith, ground arith), tt) joining-fits
