-- ===== src/Wire/Runs.antt =====
-- Concrete packets, and the theorems at concrete inputs.
use sarama.Base.{ℕ, ◌≡◌, refl, true, List, [], ◌∷◌, ◌++◌, some, arith}
use sarama.Base.Int.{pos, negsuc}
use sarama.Wire.Bytes.{be}
use sarama.Wire.Varint.{put_uvarint}
use sarama.Wire.Checksum.{ieee, checksum, ieee_table, castagnoli_table}
use sarama.Wire.Encode.Packet.{
  Put, length_field, varint_length_field, crc32_field, Packet, end, put, framed, ok, err,
  invalid_request_size,
}
use sarama.Wire.Encode.Prep.{prep, prep_put, prep_push, prep_pop, reserve_length}
use sarama.Wire.Encode.Passes.{encode, real}
use sarama.Wire.Encode.Encoding.{encoding, put_bytes, field_bytes}
use sarama.Wire.Encode.Agree.{encode-encoding}
use sarama.Wire.Decode.Monad
use sarama.Wire.Decode.Monad.{Decoder, panic}
use sarama.Wire.Decode.Method
use sarama.Wire.Decode.Method.{run}
use sarama.Wire.Decode.Sound.{Ends}
use sarama.Wire.Decode.Panics.{run-Ends}
use sarama.Wire.RoundTrip.Reads.{here}
use sarama.Wire.RoundTrip.Written.{run-encode}

abbrev check_string : List ℕ
check_string = 0x31 ∷ 0x32 ∷ 0x33 ∷ 0x34 ∷ 0x35 ∷ 0x36 ∷ 0x37 ∷ 0x38 ∷ 0x39 ∷ []

crc_ieee : checksum ieee_table check_string ≡ 0xcbf4_3926
unfolding checksum
crc_ieee = refl

crc_castagnoli : checksum castagnoli_table check_string ≡ 0xe306_9283
unfolding checksum
crc_castagnoli = refl

-- A length, a checksum over a string, and a varint length that the first pass has to set.
abbrev sample : Packet
sample =
    framed length_field
      (put (Put.int16 (negsuc 0)) (
        framed (crc32_field ieee) (put (Put.string (7 ∷ 8 ∷ [])) end)
          (framed (varint_length_field (pos 0)) (put (Put.bool true) end) end)))
      (put (Put.varint_bytes (some (1 ∷ []))) end)

encode-sample : encode 100 sample ≡ ok (encoding sample)
unfolding encode prep prep_put prep_push prep_pop reserve_length real encoding put_bytes field_bytes
    be put_uvarint checksum
encode-sample = encode-encoding 100 sample (tt, (tt, tt, (tt, tt, tt)), tt)

encode_too_large : encode 9 sample ≡ err invalid_request_size
unfolding encode prep prep_put prep_push prep_pop reserve_length real encoding put_bytes field_bytes
    be put_uvarint checksum
encode_too_large = refl

abbrev decoder : List ℕ → Decoder
decoder bs = record { raw = bs; off = 0; stack = [] }

run-Ends_example : Ends ⊥ (decoder (0 ∷ 5 ∷ 1 ∷ [])) (run Method.string (decoder (0 ∷ 5 ∷ 1 ∷ [])))
run-Ends_example = run-Ends Method.string (decoder (0 ∷ 5 ∷ 1 ∷ [])) (omega arith)

run-encode_example :
    (bs : List ℕ) × (encode 100 (put (Put.string (7 ∷ 8 ∷ [])) end) ≡ ok bs)
    × (run Method.string (here (9 ∷ []) (bs ++ (5 ∷ [])) [])
        ≡ (here ((9 ∷ []) ++ bs) (5 ∷ []) [], Monad.ok (7 ∷ 8 ∷ [])))
unfolding put_bytes be
run-encode_example =
    run-encode 100 (Put.string (7 ∷ 8 ∷ [])) (9 ∷ []) (5 ∷ []) [] (omega arith) tt (omega arith)
