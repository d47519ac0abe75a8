-- ===== src/Protocol/TxnRuns.antt =====
-- Runs of the messages of a transaction.
use sarama.Base.{ℕ, ◌≤◌, ◌≡◌, refl, true, List, [], ◌∷◌, length, arith}
use sarama.Base.Int.{pos}
use sarama.Wire.Bytes.{be}
use sarama.Wire.Decode.Monad
use sarama.Wire.Encode.Packet
use sarama.Wire.Encode.Passes.{encode}
use sarama.Wire.Encode.Encoding.{put_bytes, encoding}
use sarama.Record.Data.{to_millis}
use sarama.Protocol.Fields.{versioned_decode}
use sarama.Protocol.Transactions.{
  TxnMessage, end_request, end_txn_request_packet, end_response, end_txn_response_packet,
  txn_packet, allocated, decode_into,
}
use sarama.Protocol.TxnRoundTrip.{IsSayableTxn, read_back_txn, versioned_decode-txn_packet}

abbrev committing : TxnMessage
committing = end_request (record {
  version = pos 1;
  transactional_id = 116 ∷ 120 ∷ [];
  producer_id = pos 4000;
  producer_epoch = pos 2;
  transaction_result = true;
})

committing-encoding :
    encoding (txn_packet committing)
    ≡ 0 ∷ 2 ∷ 116 ∷ 120 ∷ 0 ∷ 0 ∷ 0 ∷ 0 ∷ 0 ∷ 0 ∷ 15 ∷ 160 ∷ 0 ∷ 2 ∷ 1 ∷ []
unfolding encoding txn_packet end_txn_request_packet put_bytes be
committing-encoding = refl

abbrev throttled : TxnMessage
throttled = end_response (record { version = pos 2; throttle_time = pos 5_000_007; err = pos 51 })

throttled-fits : length (encoding (txn_packet throttled)) ≤ 100
unfolding encoding txn_packet end_txn_response_packet put_bytes be
throttled-fits = omega arith

throttled-IsSayable : IsSayableTxn throttled
unfolding to_millis
throttled-IsSayable = (omega arith, omega arith)

versioned_decode-txn_packet_example :
    (bs : List ℕ) × (encode 100 (txn_packet throttled) ≡ Packet.ok bs)
    × (versioned_decode (decode_into (allocated throttled)) bs ≡ Monad.ok (read_back_txn throttled))
versioned_decode-txn_packet_example =
    versioned_decode-txn_packet 100 throttled throttled-IsSayable throttled-fits
