-- ===== src/Wire/Decode/Fields.antt =====
-- The stack of `realDecoder`: lengths and checksums that are checked once the bytes they are about
-- have been read (real_decoder.go, length_field.go, crc32_field.go).
use sarama.Base.{ℕ, ◌+◌, ◌-◌, ◌%◌, ◌^◌, Bool, List, [], ◌∷◌, length, ltb, ◌==◌, if◌then◌else◌}
use sarama.Base.Int.{ℤ, signed, ltb_ℤ, eqb_ℤ}
use sarama.Wire.Bytes.{un_be}
use sarama.Wire.Varint.{put_uvarint, zigzag}
use sarama.Wire.Checksum.{
  Polynomial, ieee, castagnoli, unknown, checksum, ieee_table, castagnoli_table,
}
use sarama.Wire.Decode.Monad.{
  Frame, length_field, varint_length_field, crc32_field, Result, ok, err, panic, DecodingError, M,
  ◌>>=◌, run_dry, remaining, slice, insufficient_data, length_field_invalid, crc_mismatch,
  invalid_crc_type,
}
use sarama.Wire.Decode.Primitives.{get_int32, get_varint}

-- What is pushed, before it has read anything.
pub data Field : Type 0 where
  length_of varint_length_of : Field
  crc32_of : Polynomial → Field

-- `rd.stack = append(rd.stack, in)`
unfoldable pub put_frame : Frame → M (Unit {0})
put_frame f d = (record d { stack = f ∷ d.stack }, ok tt)

-- lengthField.decode, after the read: the remaining length is converted to an int32.
unfoldable pub check_remaining : ℕ → ℤ → M (Unit {0})
unfolding put_frame
check_remaining start n d =
    if ltb_ℤ (signed (2 ^ 31) (remaining d % 2 ^ 32)) n
    then (d, err insufficient_data)
    else put_frame (length_field start n) d

-- crc32Field reserves four bytes.
unfoldable pub reserve : ℕ → Polynomial → M (Unit {0})
reserve start p d =
    if ltb (remaining d) 4
    then run_dry d
    else (record d { off = d.off + 4; stack = crc32_field start p ∷ d.stack }, ok tt)

unfoldable pub push : Field → M (Unit {0})
unfolding check_remaining put_frame reserve
push length_of d = (do n ← get_int32; check_remaining d.off n) d
push varint_length_of d = (do n ← get_varint; put_frame (varint_length_field d.off n)) d
push (crc32_of p) d = reserve d.off p d

-- `cur - start`, in a word of `modulus` values.
abbrev pub word_sub : ℕ → ℕ → ℕ → ℕ
word_sub modulus cur start = (cur + modulus - start % modulus) % modulus

unfoldable pub agrees : Bool → DecodingError → Result (Unit {0})
agrees b e = if b then ok tt else err e

-- crc32Field.crc: over the bytes between the field and the present offset.
unfoldable pub crc32_agrees : ℕ → ℕ → ℕ → List ℕ → Result (Unit {0})
unfolding agrees checksum un_be
crc32_agrees table start cur raw =
    if ltb cur (start + 4)
    then panic
    else agrees
        (checksum table (slice (start + 4) (cur - (start + 4)) raw) == un_be 0 (slice start 4 raw))
        crc_mismatch

-- The `check` methods.
unfoldable pub check : Frame → ℕ → List ℕ → Result (Unit {0})
unfolding crc32_agrees agrees put_uvarint
check (length_field start n) cur raw =
    agrees (eqb_ℤ (signed (2 ^ 31) (word_sub (2 ^ 32) cur (start + 4))) n) length_field_invalid
check (varint_length_field start n) cur raw =
    let size = length (put_uvarint (zigzag n)) in
    agrees (eqb_ℤ (signed (2 ^ 63) (word_sub (2 ^ 64) cur (start + size))) n) length_field_invalid
check (crc32_field start ieee) cur raw = crc32_agrees ieee_table start cur raw
check (crc32_field start castagnoli) cur raw = crc32_agrees castagnoli_table start cur raw
check (crc32_field start unknown) cur raw = err invalid_crc_type

unfoldable pub pop_frame : List Frame → M (Unit {0})
unfolding check
pop_frame [] d = (d, panic)
pop_frame (f ∷ fs) d = (record d { stack = fs }, check f d.off d.raw)

unfoldable pub pop : M (Unit {0})
unfolding pop_frame
pop d = pop_frame d.stack d
