-- ===== src/Protocol/TxnRoundTrip.antt =====
-- The messages of a transaction are read back as they were written.
use sarama.Base.{ℕ, ◌+◌, ◌^◌, ◌≤◌, ◌<◌, ◌≡◌, refl, Bool, true, false, List, length}
use sarama.Base.Int.{ℤ, pos, Fits}
use sarama.Wire.Decode.Monad
use sarama.Wire.Decode.Monad.{M, ◌>>=◌, pure}
use sarama.Wire.Decode.Primitives.{get_int16, get_int32, get_int64, get_bool}
use sarama.Wire.Decode.Collections.{get_string}
use sarama.Wire.Encode.Packet
use sarama.Wire.Encode.Packet.{Put, Packet, end, put}
use sarama.Wire.Encode.Prep.{prep_put}
use sarama.Wire.Encode.Passes.{encode}
use sarama.Wire.Encode.Encoding.{put_bytes, encoding}
use sarama.Wire.RoundTrip.Reads.{Reads, map-Reads}
use sarama.Wire.RoundTrip.Written.{Fine}
use sarama.Wire.RoundTrip.Puts.{int64-Reads, bool-Reads}
use sarama.Record.Data.{to_millis, of_millis}
use sarama.Protocol.Fields.{versioned_decode}
use sarama.Protocol.Rules.{
  field-Reads, done-Reads, put_string-Reads, put_int32-Reads, put_int16-Reads,
}
use sarama.Protocol.Puttable.{Puttable, int16-Fine, int32-Fine, string-Fine}
use sarama.Protocol.EndToEnd.{encode-Puttable, versioned_decode-Reads}
use sarama.Protocol.Transactions.{
  AddOffsetsToTxnRequest, EndTxnRequest, AddOffsetsToTxnResponse, EndTxnResponse,
  add_offsets_to_txn_request_packet, decode_add_offsets_to_txn_request, end_txn_request_packet,
  decode_end_txn_request, add_offsets_to_txn_response_packet, decode_add_offsets_to_txn_response,
  end_txn_response_packet, decode_end_txn_response, allocate_add_offsets_to_txn_request,
  allocate_end_txn_request, new_add_offsets_to_txn_response, new_end_txn_response, TxnMessage,
  add_offsets_request, end_request, add_offsets_response, end_response, txn_packet, allocated,
  decode_into,
}

int64-Fine : (z : ℤ) → Fine (Put.int64 z)
unfolding prep_put
int64-Fine z n = (n + 8, refl)

bool-Fine : (b : Bool) → Fine (Put.bool b)
unfolding prep_put
bool-Fine b n = (n + 1, refl)

put_int64-Reads : (z : ℤ) → Fits (2 ^ 63) z → Reads get_int64 (put_bytes (Put.int64 z)) z
unfolding put_bytes
put_int64-Reads z h = int64-Reads z h

put_bool-Reads : (b : Bool) → Reads get_bool (put_bytes (Put.bool b)) b
unfolding put_bytes
put_bool-Reads true = bool-Reads true
put_bool-Reads false = bool-Reads false

abbrev pub IsSayableTxn : TxnMessage → Type 0
IsSayableTxn (add_offsets_request r) =
    (length r.transactional_id < 2 ^ 15)
    × Fits (2 ^ 63) r.producer_id
    × Fits 0x8000 r.producer_epoch
    × (length r.group_id < 2 ^ 15)
IsSayableTxn (end_request r) =
    (length r.transactional_id < 2 ^ 15)
    × Fits (2 ^ 63) r.producer_id
    × Fits 0x8000 r.producer_epoch
IsSayableTxn (add_offsets_response r) =
    Fits (2 ^ 31) (to_millis r.throttle_time) × Fits 0x8000 r.err
IsSayableTxn (end_response r) = Fits (2 ^ 31) (to_millis r.throttle_time) × Fits 0x8000 r.err

-- A response comes back at version 0, its time cut to milliseconds.
unfoldable pub read_back_txn : TxnMessage → TxnMessage
read_back_txn (add_offsets_request r) = add_offsets_request r
read_back_txn (end_request r) = end_request r
read_back_txn (add_offsets_response r) =
    add_offsets_response (record {
      version = pos 0;
      throttle_time = of_millis (to_millis r.throttle_time);
      err = r.err;
    })
read_back_txn (end_response r) =
    end_response (record {
      version = pos 0;
      throttle_time = of_millis (to_millis r.throttle_time);
      err = r.err;
    })

txn-Puttable : (m : TxnMessage) → IsSayableTxn m → Puttable (txn_packet m)
unfolding txn_packet add_offsets_to_txn_request_packet end_txn_request_packet
    add_offsets_to_txn_response_packet end_txn_response_packet
txn-Puttable (add_offsets_request r) (t, i, e, g) = (
  string-Fine r.transactional_id t,
  (int64-Fine r.producer_id, (int16-Fine r.producer_epoch, (string-Fine r.group_id g, tt))),
)
txn-Puttable (end_request r) (t, i, e) = (
  string-Fine r.transactional_id t,
  (int64-Fine r.producer_id, (int16-Fine r.producer_epoch, (bool-Fine r.transaction_result, tt))),
)
txn-Puttable (add_offsets_response r) s =
    (int32-Fine (to_millis r.throttle_time), (int16-Fine r.err, tt))
txn-Puttable (end_response r) s = (int32-Fine (to_millis r.throttle_time), (int16-Fine r.err, tt))

add_offsets_request-Reads :
    (r : AddOffsetsToTxnRequest)
    → IsSayableTxn (add_offsets_request r)
    → Reads
        (decode_add_offsets_to_txn_request (allocate_add_offsets_to_txn_request r.version))
        (encoding (add_offsets_to_txn_request_packet r))
        r
unfolding decode_add_offsets_to_txn_request allocate_add_offsets_to_txn_request
    add_offsets_to_txn_request_packet
add_offsets_request-Reads r (t, i, e, g) =
    field-Reads get_string _ _ _ r.transactional_id r (put_string-Reads r.transactional_id t) (
      field-Reads get_int64 _ _ _ r.producer_id r (put_int64-Reads r.producer_id i) (
        field-Reads get_int16 _ _ _ r.producer_epoch r (put_int16-Reads r.producer_epoch e) (
          field-Reads get_string _ _ _ r.group_id r (put_string-Reads r.group_id g)
            (done-Reads r))))

end_request-Reads :
    (r : EndTxnRequest)
    → IsSayableTxn (end_request r)
    → Reads
        (decode_end_txn_request (allocate_end_txn_request r.version))
        (encoding (end_txn_request_packet r))
        r
unfolding decode_end_txn_request allocate_end_txn_request end_txn_request_packet
end_request-Reads r (t, i, e) =
    field-Reads get_string _ _ _ r.transactional_id r (put_string-Reads r.transactional_id t) (
      field-Reads get_int64 _ _ _ r.producer_id r (put_int64-Reads r.producer_id i) (
        field-Reads get_int16 _ _ _ r.producer_epoch r (put_int16-Reads r.producer_epoch e) (
          field-Reads get_bool _ _ _ r.transaction_result r (put_bool-Reads r.transaction_result)
            (done-Reads r))))

add_offsets_response-Reads :
    (r : AddOffsetsToTxnResponse)
    → IsSayableTxn (add_offsets_response r)
    → Reads
        (decode_add_offsets_to_txn_response new_add_offsets_to_txn_response)
        (encoding (add_offsets_to_txn_response_packet r))
        (record {
          version = pos 0;
          throttle_time = of_millis (to_millis r.throttle_time);
          err = r.err;
        })
unfolding decode_add_offsets_to_txn_response new_add_offsets_to_txn_response
    add_offsets_to_txn_response_packet
add_offsets_response-Reads r s =
    field-Reads get_int32 _ _ _ (to_millis r.throttle_time) _
      (put_int32-Reads (to_millis r.throttle_time) s.0)
      (field-Reads get_int16 _ _ _ r.err _ (put_int16-Reads r.err s.1) (done-Reads _))

end_response-Reads :
    (r : EndTxnResponse)
    → IsSayableTxn (end_response r)
    → Reads
        (decode_end_txn_response new_end_txn_response)
        (encoding (end_txn_response_packet r))
        (record {
          version = pos 0;
          throttle_time = of_millis (to_millis r.throttle_time);
          err = r.err;
        })
unfolding decode_end_txn_response new_end_txn_response end_txn_response_packet
end_response-Reads r s =
    field-Reads get_int32 _ _ _ (to_millis r.throttle_time) _
      (put_int32-Reads (to_millis r.throttle_time) s.0)
      (field-Reads get_int16 _ _ _ r.err _ (put_int16-Reads r.err s.1) (done-Reads _))

txn-Reads :
    (m : TxnMessage)
    → IsSayableTxn m
    → Reads (decode_into (allocated m)) (encoding (txn_packet m)) (read_back_txn m)
unfolding txn_packet decode_into allocated read_back_txn
txn-Reads (add_offsets_request r) s =
    map-Reads (decode_add_offsets_to_txn_request (allocate_add_offsets_to_txn_request r.version))
      add_offsets_request (encoding (add_offsets_to_txn_request_packet r)) r
      (add_offsets_request-Reads r s)
txn-Reads (end_request r) s =
    map-Reads (decode_end_txn_request (allocate_end_txn_request r.version)) end_request
      (encoding (end_txn_request_packet r)) r (end_request-Reads r s)
txn-Reads (add_offsets_response r) s =
    map-Reads (decode_add_offsets_to_txn_response new_add_offsets_to_txn_response)
      add_offsets_response (encoding (add_offsets_to_txn_response_packet r)) _
      (add_offsets_response-Reads r s)
txn-Reads (end_response r) s =
    map-Reads (decode_end_txn_response new_end_txn_response) end_response
      (encoding (end_txn_response_packet r)) _ (end_response-Reads r s)

-- A request to add offsets to a transaction or to end one, or the response to it, whose lengths and
-- numbers fit their fields, is encoded, if it is not too large. Its bytes, decoded into the struct
-- that the program allocates for it, give a request just as it was; a response comes back with its
-- error and its time cut to milliseconds, but always at version 0.
pub versioned_decode-txn_packet :
    (max : ℕ) (m : TxnMessage)
    → IsSayableTxn m
    → length (encoding (txn_packet m)) ≤ max
    → (bs : List ℕ) × (encode max (txn_packet m) ≡ Packet.ok bs)
      × (versioned_decode (decode_into (allocated m)) bs ≡ Monad.ok (read_back_txn m))
versioned_decode-txn_packet max m s l = (
  encoding (txn_packet m),
  encode-Puttable max (txn_packet m) (txn-Puttable m s) l,
  versioned_decode-Reads (decode_into (allocated m)) (encoding (txn_packet m)) (read_back_txn m)
      (txn-Reads m s),
)
