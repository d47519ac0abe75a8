-- ===== src/Wire/Encode/Passes.antt =====
-- The stack of `realEncoder` (real_encoder.go), the fields' `run` (length_field.go, crc32_field.go),
-- and the two passes of `encode` (encoder_decoder.go).
use sarama.Base.{ℕ, ◌+◌, ◌-◌, ◌%◌, ◌^◌, List, [], ◌∷◌, take, drop, replicate, ltb, if◌then◌else◌}
use sarama.Wire.Bytes.{be}
use sarama.Wire.Varint.{put_uvarint, zigzag}
use sarama.Wire.Checksum.{ieee, castagnoli, unknown, checksum, ieee_table, castagnoli_table}
use sarama.Wire.Encode.Packet.{
  PushField, length_field, varint_length_field, crc32_field, Packet, end, put, framed, Outcome, ok,
  err, ◌>>=◌, invalid_request_size, invalid_crc_type, nothing_pushed, out_of_range,
}
use sarama.Wire.Encode.Prep.{reserve_length, prep}
use sarama.Wire.Encode.Real.{RealEncoder, Step, patch, real_put}

unfoldable pub real_push : PushField → RealEncoder → RealEncoder
real_push f e = record e { off = e.off + reserve_length f; stack = (e.off, f) ∷ e.stack }

-- The bytes between the field of four bytes at `start` and the offset; Go panics if there are none.
unfoldable pub crc_patch : ℕ → ℕ → ℕ → List ℕ → Outcome (List ℕ)
crc_patch table start cur raw =
    if ltb cur (start + 4)
    then err out_of_range
    else patch start (be 4 (checksum table (take (cur - (start + 4)) (drop (start + 4) raw)))) raw

-- The `run` methods.
unfoldable pub run_field : ℕ → PushField → ℕ → List ℕ → Outcome (List ℕ)
unfolding crc_patch
run_field start length_field cur raw =
    patch start (be 4 ((cur + 2 ^ 32 - (start + 4) % 2 ^ 32) % 2 ^ 32)) raw
run_field start (varint_length_field z) cur raw = patch start (put_uvarint (zigzag z)) raw
run_field start (crc32_field ieee) cur raw = crc_patch ieee_table start cur raw
run_field start (crc32_field castagnoli) cur raw = crc_patch castagnoli_table start cur raw
run_field start (crc32_field unknown) cur raw = err invalid_crc_type

unfoldable pub real_pop_from : List (ℕ × PushField) → Step
real_pop_from [] e = err nothing_pushed
real_pop_from ((start, f) ∷ fs) e =
    run_field start f e.off e.raw >>= λ raw. ok (record e { raw = raw; stack = fs })

unfoldable pub real_pop : Step
unfolding real_pop_from
real_pop e = real_pop_from e.stack e

unfoldable pub real : Packet → Step
real end e = ok e
real (put p rest) e = real_put p e >>= real rest
real (framed f body rest) e = real body (real_push f e) >>= λ e'. real_pop e' >>= real rest

-- `encode`: `max` is MaxRequestSize. The caller's object is nil where there is no packet.
unfoldable pub encode : ℕ → Packet → Outcome (List ℕ)
encode max p = prep p (record { length = 0; stack = [] }) >>= λ (pe, p').
    (if ltb max pe.length
      then err invalid_request_size
      else real p' (record { raw = replicate pe.length 0; off = 0; stack = [] }) >>= λ e. ok e.raw)
