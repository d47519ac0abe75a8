-- ===== src/Record/Runs.antt =====
-- Runs of the records.
use sarama.Base.{◌≡◌, refl, [], ◌∷◌, ◌++◌, none, some, arith}
use sarama.Base.Int.{pos}
use sarama.Wire.Bytes.{be}
use sarama.Wire.Varint.{put_uvarint}
use sarama.Wire.Decode.Monad.{ok}
use sarama.Wire.Encode.Encoding.{encoding, put_bytes, field_bytes}
use sarama.Wire.RoundTrip.Reads.{here}
use sarama.Record.Data.{Record, to_millis}
use sarama.Record.Format.{headers_packet, body_packet, record_packet, decode_record}
use sarama.Record.RoundTrip.{IsSayableRecord, read_back, decode_record-record_packet}

abbrev sample : Record
sample = record {
  headers = some (record { key = some (0x6b ∷ []); value = none } ∷ []);
  attributes = pos 0;
  timestamp_delta = pos 2500000;
  offset_delta = pos 3;
  key = some (1 ∷ 2 ∷ 3 ∷ 4 ∷ []);
  value = some (5 ∷ 6 ∷ 7 ∷ []);
}

sample_bytes :
    encoding (record_packet (pos 0) sample)
    ≡ 32 ∷ 0 ∷ 4 ∷ 6 ∷ 8 ∷ 1 ∷ 2 ∷ 3 ∷ 4 ∷ 6 ∷ 5 ∷ 6 ∷ 7 ∷ 2 ∷ 2 ∷ 0x6b ∷ 1 ∷ []
unfolding encoding record_packet body_packet headers_packet put_bytes field_bytes be put_uvarint
    to_millis
sample_bytes = refl

sample-IsSayableRecord : IsSayableRecord sample
unfolding encoding body_packet headers_packet put_bytes be put_uvarint to_millis
sample-IsSayableRecord = record {
  attributes_fit = omega arith;
  timestamp_fits = omega arith;
  offset_fits = omega arith;
  key_fits = omega arith;
  value_fits = omega arith;
  count_fits = omega arith;
  headers_fit = ((omega arith, tt), tt);
  body_fits = omega arith;
}

decode_record-record_packet_example :
    decode_record (here [] (encoding (record_packet (pos 0) sample) ++ (9 ∷ [])) [])
    ≡ (here (encoding (record_packet (pos 0) sample)) (9 ∷ []) [], ok (read_back sample))
decode_record-record_packet_example =
    decode_record-record_packet (pos 0) sample sample-IsSayableRecord [] (9 ∷ []) []
