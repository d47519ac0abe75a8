-- ===== src/Wire/Encode/Real.antt =====
-- The second pass: `realEncoder` (real_encoder.go) writes into a slice of the size that was counted.
use sarama.Base.{
  ℕ, ◌+◌, ◌^◌, true, false, List, [], ◌∷◌, ◌++◌, length, take, drop, none, some, ltb, if◌then◌else◌,
}
use sarama.Base.Int.{ℤ, pos, unsigned, minus_one}
use sarama.Wire.Bytes.{be}
use sarama.Wire.Varint.{put_uvarint, zigzag}
use sarama.Wire.Encode.Packet.{
  Put, PushField, Outcome, ok, err, ◌>>=◌, null_int32_array, out_of_range,
}
use sarama.Wire.Encode.Prep.{compact_length}

pub record RealEncoder : Type 0 where
  pub raw : List ℕ
  pub off : ℕ
  pub stack : List (ℕ × PushField)

abbrev pub Step : Type 0
Step = RealEncoder → Outcome RealEncoder

infixl 5 ◌>=>◌
abbrev pub ◌>=>◌ : Step → Step → Step
◌>=>◌ m k e = m e >>= k

-- `bs` over the bytes from `start` on: PutUint32(buf[start:], …) and the like panic out of range.
unfoldable pub patch : ℕ → List ℕ → List ℕ → Outcome (List ℕ)
patch start bs raw =
    if ltb (length raw) (start + length bs)
    then err out_of_range
    else ok (take start raw ++ (bs ++ drop (start + length bs) raw))

-- A write at the offset, which it moves on.
unfoldable pub write : List ℕ → Step
unfolding patch
write bs e = patch e.off bs e.raw >>= λ raw. ok (record e { raw = raw; off = e.off + length bs })

-- Go's `copy`, which stops at the end of either slice.
unfoldable pub copy : List ℕ → List ℕ → List ℕ
copy [] src = []
copy (d ∷ dst) [] = d ∷ dst
copy (d ∷ dst) (s ∷ src) = s ∷ copy dst src

-- `copy(re.raw[re.off:], in); re.off += len(in)`
unfoldable pub put_raw_bytes : List ℕ → Step
unfolding copy
put_raw_bytes bs e =
    if ltb (length e.raw) e.off
    then err out_of_range
    else ok
        (record e { raw = take e.off e.raw ++ copy (drop e.off e.raw) bs; off = e.off + length bs })

abbrev pub put_int8 : ℤ → Step
put_int8 z = write (be 1 (unsigned 0x80 z))

abbrev pub put_int16 : ℤ → Step
put_int16 z = write (be 2 (unsigned 0x8000 z))

abbrev pub put_int32 : ℤ → Step
put_int32 z = write (be 4 (unsigned (2 ^ 31) z))

abbrev pub put_int64 : ℤ → Step
put_int64 z = write (be 8 (unsigned (2 ^ 63) z))

abbrev pub put_varint : ℤ → Step
put_varint z = write (put_uvarint (zigzag z))

abbrev pub put_uint : ℕ → Step
put_uint n = write (put_uvarint n)

abbrev pub put_string : List ℕ → Step
put_string bs = put_int16 (pos (length bs)) >=> put_raw_bytes bs

abbrev pub put_compact_string : List ℕ → Step
put_compact_string bs = put_uint (compact_length (pos (length bs))) >=> put_raw_bytes bs

-- The loops over an array.
unfoldable pub put_each {ℓ} : {A : Type ℓ} → (A → Step) → List A → Step
put_each f [] e = ok e
put_each f (x ∷ xs) e = f x e >>= put_each f xs

-- Each method. `putNullableCompactString` writes a nil string by putInt8.
unfoldable pub real_put : Put → Step
unfolding put_each
real_put (Put.int8 z) = put_int8 z
real_put (Put.int16 z) = put_int16 z
real_put (Put.int32 z) = put_int32 z
real_put (Put.int64 z) = put_int64 z
real_put (Put.varint z) = put_varint z
real_put (Put.uvarint n) = put_uint n
real_put (Put.float64 n) = write (be 8 n)
real_put (Put.array_length z) = put_int32 z
real_put (Put.compact_array_length z) = put_uint (compact_length z)
real_put (Put.bool true) = put_int8 (pos 1)
real_put (Put.bool false) = put_int8 (pos 0)
real_put (Put.bytes none) = put_int32 minus_one
real_put (Put.bytes (some bs)) = put_int32 (pos (length bs)) >=> put_raw_bytes bs
real_put (Put.varint_bytes none) = put_varint minus_one
real_put (Put.varint_bytes (some bs)) = put_varint (pos (length bs)) >=> put_raw_bytes bs
real_put (Put.compact_bytes bs) = put_uint (length bs + 1) >=> put_raw_bytes bs
real_put (Put.compact_string bs) = put_compact_string bs
real_put (Put.nullable_compact_string none) = put_int8 (pos 0)
real_put (Put.nullable_compact_string (some bs)) = put_compact_string bs
real_put (Put.raw_bytes bs) = put_raw_bytes bs
real_put (Put.string bs) = put_string bs
real_put (Put.nullable_string none) = put_int16 minus_one
real_put (Put.nullable_string (some bs)) = put_string bs
real_put (Put.string_array ss) = put_int32 (pos (length ss)) >=> put_each put_string ss
real_put (Put.compact_int32_array none) = λ e. err null_int32_array
real_put (Put.compact_int32_array (some xs)) = put_uint (length xs + 1) >=> put_each put_int32 xs
real_put (Put.nullable_compact_int32_array none) = put_uint 0
real_put (Put.nullable_compact_int32_array (some xs)) =
    put_uint (length xs + 1) >=> put_each put_int32 xs
real_put (Put.int32_array xs) = put_int32 (pos (length xs)) >=> put_each put_int32 xs
real_put (Put.int64_array xs) = put_int32 (pos (length xs)) >=> put_each put_int64 xs
real_put Put.empty_tagged_field_array = put_uint 0
