-- ===== src/Wire/Encode/Prep.antt =====
-- The first pass: `prepEncoder` (prep_encoder.go) counts the bytes and checks the sizes.
use sarama.Base.{ℕ, ◌+◌, ◌-◌, ◌*◌, ◌^◌, List, [], ◌∷◌, length, none, some, ltb, if◌then◌else◌}
use sarama.Base.Int.{ℤ, pos, unsigned, suc_ℤ, ltb_ℤ, minus_one}
use sarama.Wire.Varint.{put_uvarint, zigzag}
use sarama.Wire.Encode.Packet.{
  Put, PushField, length_field, varint_length_field, crc32_field, Packet, end, put, framed, Outcome,
  ok, err, ◌>>=◌, array_too_long, byteslice_too_long, string_too_long, null_int32_array,
  nothing_pushed,
}

-- A push field with the offset that `saveOffset` noted; the one pushed last stands first.
pub record PrepEncoder : Type 0 where
  pub length : ℕ
  pub stack : List (ℕ × PushField)

-- PutVarint and PutUvarint return the number of bytes.
abbrev pub varint_size : ℤ → ℕ
varint_size z = length (put_uvarint (zigzag z))

abbrev pub uvarint_size : ℕ → ℕ
uvarint_size n = length (put_uvarint n)

unfoldable pub prep_raw_bytes : List ℕ → ℕ → Outcome ℕ
prep_raw_bytes bs n =
    if ltb 2147483647 (length bs) then err byteslice_too_long else ok (n + length bs)

unfoldable pub prep_string : List ℕ → ℕ → Outcome ℕ
prep_string bs n = if ltb 32767 (length bs) then err string_too_long else ok (n + 2 + length bs)

unfoldable pub prep_array_length : ℤ → ℕ → Outcome ℕ
prep_array_length z n = if ltb_ℤ (pos 2147483647) z then err array_too_long else ok (n + 4)

unfoldable pub prep_strings : List (List ℕ) → ℕ → Outcome ℕ
unfolding prep_string
prep_strings [] n = ok n
prep_strings (s ∷ ss) n = prep_string s n >>= prep_strings ss

-- `uint64(in + 1)`
abbrev pub compact_length : ℤ → ℕ
compact_length z = unsigned (2 ^ 63) (suc_ℤ z)

-- Each method, as a function of `length`.
unfoldable pub prep_put : Put → ℕ → Outcome ℕ
unfolding prep_raw_bytes prep_string prep_array_length prep_strings
prep_put (Put.int8 z) n = ok (n + 1)
prep_put (Put.int16 z) n = ok (n + 2)
prep_put (Put.int32 z) n = ok (n + 4)
prep_put (Put.int64 z) n = ok (n + 8)
prep_put (Put.varint z) n = ok (n + varint_size z)
prep_put (Put.uvarint x) n = ok (n + uvarint_size x)
prep_put (Put.float64 x) n = ok (n + 8)
prep_put (Put.array_length z) n = prep_array_length z n
prep_put (Put.compact_array_length z) n = ok (n + uvarint_size (compact_length z))
prep_put (Put.bool b) n = ok (n + 1)
prep_put (Put.bytes none) n = ok (n + 4)
prep_put (Put.bytes (some bs)) n = prep_raw_bytes bs (n + 4)
prep_put (Put.varint_bytes none) n = ok (n + varint_size minus_one)
prep_put (Put.varint_bytes (some bs)) n = prep_raw_bytes bs (n + varint_size (pos (length bs)))
prep_put (Put.compact_bytes bs) n = prep_raw_bytes bs (n + uvarint_size (length bs + 1))
prep_put (Put.compact_string bs) n =
    prep_raw_bytes bs (n + uvarint_size (compact_length (pos (length bs))))
prep_put (Put.nullable_compact_string none) n = ok (n + uvarint_size 0)
prep_put (Put.nullable_compact_string (some bs)) n =
    prep_raw_bytes bs (n + uvarint_size (compact_length (pos (length bs))))
prep_put (Put.raw_bytes bs) n = prep_raw_bytes bs n
prep_put (Put.nullable_string none) n = ok (n + 2)
prep_put (Put.nullable_string (some bs)) n = prep_string bs n
prep_put (Put.string bs) n = prep_string bs n
prep_put (Put.string_array ss) n = prep_array_length (pos (length ss)) n >>= prep_strings ss
prep_put (Put.compact_int32_array none) n = err null_int32_array
prep_put (Put.compact_int32_array (some xs)) n =
    ok (n + uvarint_size (length xs + 1) + 4 * length xs)
prep_put (Put.nullable_compact_int32_array none) n = ok (n + uvarint_size 0)
prep_put (Put.nullable_compact_int32_array (some xs)) n =
    ok (n + uvarint_size (length xs + 1) + 4 * length xs)
prep_put (Put.int32_array xs) n =
    prep_array_length (pos (length xs)) n >>= λ m. ok (m + 4 * length xs)
prep_put (Put.int64_array xs) n =
    prep_array_length (pos (length xs)) n >>= λ m. ok (m + 8 * length xs)
prep_put Put.empty_tagged_field_array n = ok (n + uvarint_size 0)

-- The `reserveLength` methods.
unfoldable pub reserve_length : PushField → ℕ
reserve_length length_field = 4
reserve_length (varint_length_field z) = varint_size z
reserve_length (crc32_field p) = 4

unfoldable pub prep_push : PushField → PrepEncoder → PrepEncoder
prep_push f pe = record { length = pe.length + reserve_length f; stack = (pe.length, f) ∷ pe.stack }

-- `adjustLength` of the varint length field, which the prep pass calls in `pop`: the field after it,
-- beside the length. The offset has not gone back since the push, so the differences are exact.
unfoldable pub adjust : ℕ → PushField → ℕ → ℕ × PushField
adjust start (varint_length_field z) cur =
    let old = varint_size z in
    let z' = pos (cur - (start + old)) in (cur + varint_size z' - old, varint_length_field z')
adjust start f cur = (cur, f)

unfoldable pub prep_pop_from : ℕ → List (ℕ × PushField) → Outcome (PrepEncoder × PushField)
unfolding adjust
prep_pop_from cur [] = err nothing_pushed
prep_pop_from cur ((start, f) ∷ fs) =
    let (n, f') = adjust start f cur in ok (record { length = n; stack = fs }, f')

unfoldable pub prep_pop : PrepEncoder → Outcome (PrepEncoder × PushField)
unfolding prep_pop_from
prep_pop pe = prep_pop_from pe.length pe.stack

-- The pass over an `encode` method. It returns the packet too, since it sets the varint lengths.
unfoldable pub prep : Packet → PrepEncoder → Outcome (PrepEncoder × Packet)
prep end pe = ok (pe, end)
prep (put p rest) pe = prep_put p pe.length >>= λ n.
    prep rest (record pe { length = n }) >>= λ (pe', rest'). ok (pe', put p rest')
prep (framed f body rest) pe = prep body (prep_push f pe) >>= λ (pe₁, body').
    prep_pop pe₁ >>= λ (pe₂, f'). prep rest pe₂ >>= λ (pe₃, rest'). ok (pe₃, framed f' body' rest')
