-- ===== src/Protocol/Transactions.antt =====
-- Two requests of a transaction and their responses: add_offsets_to_txn_*.go and end_txn_*.go. A decode
-- method fills the struct that it is called on; of the responses none sets the version.
use sarama.Base.{ℕ, Bool, false, List, []}
use sarama.Base.Int.{ℤ, pos}
use sarama.Wire.Decode.Monad.{M, ◌>>=◌, pure}
use sarama.Wire.Decode.Primitives.{get_int16, get_int32, get_int64, get_bool}
use sarama.Wire.Decode.Collections.{get_string}
use sarama.Wire.Encode.Packet.{Put, Packet, end, put}
use sarama.Record.Data.{to_millis, of_millis}

pub record AddOffsetsToTxnRequest : Type 0 where
  pub version : ℤ
  pub transactional_id : List ℕ
  pub producer_id : ℤ
  pub producer_epoch : ℤ
  pub group_id : List ℕ

pub record EndTxnRequest : Type 0 where
  pub version : ℤ
  pub transactional_id : List ℕ
  pub producer_id : ℤ
  pub producer_epoch : ℤ
  pub transaction_result : Bool

-- The time is in nanoseconds.
pub record AddOffsetsToTxnResponse : Type 0 where
  pub version : ℤ
  pub throttle_time : ℤ
  pub err : ℤ

pub record EndTxnResponse : Type 0 where
  pub version : ℤ
  pub throttle_time : ℤ
  pub err : ℤ

unfoldable pub add_offsets_to_txn_request_packet : AddOffsetsToTxnRequest → Packet
add_offsets_to_txn_request_packet r = put (Put.string r.transactional_id) (
    put (Put.int64 r.producer_id)
      (put (Put.int16 r.producer_epoch) (put (Put.string r.group_id) end)))

unfoldable pub decode_add_offsets_to_txn_request : AddOffsetsToTxnRequest → M AddOffsetsToTxnRequest
decode_add_offsets_to_txn_request r = do
  t ← get_string
  i ← get_int64
  e ← get_int16
  g ← get_string
  pure (record r { transactional_id = t; producer_id = i; producer_epoch = e; group_id = g })

unfoldable pub end_txn_request_packet : EndTxnRequest → Packet
end_txn_request_packet r = put (Put.string r.transactional_id) (
    put (Put.int64 r.producer_id)
      (put (Put.int16 r.producer_epoch) (put (Put.bool r.transaction_result) end)))

unfoldable pub decode_end_txn_request : EndTxnRequest → M EndTxnRequest
decode_end_txn_request r = do
  t ← get_string
  i ← get_int64
  e ← get_int16
  b ← get_bool
  pure (record r {
    transactional_id = t;
    producer_id = i;
    producer_epoch = e;
    transaction_result = b;
  })

unfoldable pub add_offsets_to_txn_response_packet : AddOffsetsToTxnResponse → Packet
add_offsets_to_txn_response_packet r =
    put (Put.int32 (to_millis r.throttle_time)) (put (Put.int16 r.err) end)

unfoldable pub decode_add_offsets_to_txn_response :
    AddOffsetsToTxnResponse → M AddOffsetsToTxnResponse
decode_add_offsets_to_txn_response r = do
  t ← get_int32
  e ← get_int16
  pure (record r { throttle_time = of_millis t; err = e })

unfoldable pub end_txn_response_packet : EndTxnResponse → Packet
end_txn_response_packet r = put (Put.int32 (to_millis r.throttle_time)) (put (Put.int16 r.err) end)

unfoldable pub decode_end_txn_response : EndTxnResponse → M EndTxnResponse
decode_end_txn_response r = do
  t ← get_int32
  e ← get_int16
  pure (record r { throttle_time = of_millis t; err = e })

-- What allocateBody (request.go) makes for a request of the given version.
unfoldable pub allocate_add_offsets_to_txn_request : ℤ → AddOffsetsToTxnRequest
allocate_add_offsets_to_txn_request v = record {
  version = v;
  transactional_id = [];
  producer_id = pos 0;
  producer_epoch = pos 0;
  group_id = [];
}

unfoldable pub allocate_end_txn_request : ℤ → EndTxnRequest
allocate_end_txn_request v = record {
  version = v;
  transactional_id = [];
  producer_id = pos 0;
  producer_epoch = pos 0;
  transaction_result = false;
}

-- What AddOffsetsToTxn and EndTxn of the broker (broker.go) pass to be filled: new structs.
unfoldable pub new_add_offsets_to_txn_response : AddOffsetsToTxnResponse
new_add_offsets_to_txn_response = record { version = pos 0; throttle_time = pos 0; err = pos 0 }

unfoldable pub new_end_txn_response : EndTxnResponse
new_end_txn_response = record { version = pos 0; throttle_time = pos 0; err = pos 0 }

-- A message of the four, and how each is encoded and decoded.
pub data TxnMessage : Type 0 where
  add_offsets_request : AddOffsetsToTxnRequest → TxnMessage
  end_request : EndTxnRequest → TxnMessage
  add_offsets_response : AddOffsetsToTxnResponse → TxnMessage
  end_response : EndTxnResponse → TxnMessage

unfoldable pub txn_packet : TxnMessage → Packet
txn_packet (add_offsets_request r) = add_offsets_to_txn_request_packet r
txn_packet (end_request r) = end_txn_request_packet r
txn_packet (add_offsets_response r) = add_offsets_to_txn_response_packet r
txn_packet (end_response r) = end_txn_response_packet r

-- The struct that a message of the kind is decoded into: a request at the version that its header
-- names, a response with nothing set.
unfoldable pub allocated : TxnMessage → TxnMessage
allocated (add_offsets_request r) =
    add_offsets_request (allocate_add_offsets_to_txn_request r.version)
allocated (end_request r) = end_request (allocate_end_txn_request r.version)
allocated (add_offsets_response r) = add_offsets_response new_add_offsets_to_txn_response
allocated (end_response r) = end_response new_end_txn_response

unfoldable pub decode_into : TxnMessage → M TxnMessage
decode_into (add_offsets_request r) = do
  x ← decode_add_offsets_to_txn_request r
  pure (add_offsets_request x)
decode_into (end_request r) = do x ← decode_end_txn_request r; pure (end_request x)
decode_into (add_offsets_response r) = do
  x ← decode_add_offsets_to_txn_response r
  pure (add_offsets_response x)
decode_into (end_response r) = do x ← decode_end_txn_response r; pure (end_response x)
