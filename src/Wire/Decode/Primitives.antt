-- ===== src/Wire/Decode/Primitives.antt =====
-- The methods of `realDecoder` that read one number (real_decoder.go).
use sarama.Base.{
  ℕ, zero, suc, ◌+◌, ◌-◌, ◌*◌, ◌%◌, ◌^◌, ◌≤◌, ◌<◌, ◌≡◌, Bool, true, false, List, drop, arith, ◌==◌,
  if◌then◌else◌,
}
use sarama.Base.Int.{ℤ, pos, negsuc, signed, ltb_ℤ, eqb_ℤ}
use sarama.Wire.Bytes.{un_be}
use sarama.Wire.Varint.{Scan, short, overflow, done, uvarint, unzigzag}
use sarama.Wire.Decode.Monad.{
  ok, err, M, ◌>>=◌, ◌>>◌, pure, fail, run_dry, remaining, fixed, invalid_array_length,
  varint_overflow, uvarint_overflow, invalid_bool, invalid_byte_slice_length,
}

unfoldable pub get_int8 : M ℤ
unfolding fixed un_be
get_int8 = do bs ← fixed 1; pure (signed 0x80 (un_be 0 bs))

unfoldable pub get_int16 : M ℤ
unfolding fixed un_be
get_int16 = do bs ← fixed 2; pure (signed 0x8000 (un_be 0 bs))

unfoldable pub get_int32 : M ℤ
unfolding fixed un_be
get_int32 = do bs ← fixed 4; pure (signed (2 ^ 31) (un_be 0 bs))

unfoldable pub get_int64 : M ℤ
unfolding fixed un_be
get_int64 = do bs ← fixed 8; pure (signed (2 ^ 63) (un_be 0 bs))

-- A float64 is taken as its bits: Float64bits and Float64frombits are inverse to one another.
unfoldable pub get_float64 : M ℕ
unfolding fixed un_be
get_float64 = do bs ← fixed 8; pure (un_be 0 bs)

-- The three cases of `n`, which is what Uvarint says of the bytes read.
unfoldable pub scanned : {A : Type 0} → (ℕ → A) → M A → Scan → M A
scanned value too_wide short d = run_dry d
scanned value too_wide (overflow n) d = too_wide (record d { off = d.off + n })
scanned value too_wide (done x n) d = (record d { off = d.off + n }, ok (value x))

unfoldable pub get_varint : M ℤ
unfolding scanned uvarint
get_varint d = scanned unzigzag (fail varint_overflow) (uvarint (drop d.off d.raw)) d

unfoldable pub get_uvarint : M ℕ
unfolding scanned uvarint
get_uvarint d = scanned (λ x. x) (fail uvarint_overflow) (uvarint (drop d.off d.raw)) d

-- An array of more elements than there are bytes left is cut off.
unfoldable pub check_length : ℤ → M ℤ
check_length n d =
    if ltb_ℤ (pos (remaining d)) n
    then run_dry d
    else if ltb_ℤ (pos (2 * 65535)) n
    then (d, err invalid_array_length)
    else (d, ok n)

unfoldable pub get_array_length : M ℤ
unfolding check_length fixed
get_array_length = do bs ← fixed 4; check_length (signed (2 ^ 31) (un_be 0 bs))

-- `int(n) - 1` of a uint64, which is `int(n - 1)`: both wrap.
abbrev pub int_pred : ℕ → ℤ
int_pred n = signed (2 ^ 63) ((n + 18446744073709551615) % 2 ^ 64)

pub int_pred-pos : (n : ℕ) → 0 < n → n ≤ 2 ^ 63 → int_pred n ≡ pos (n - 1)
int_pred-pos n h k = ground arith

unfoldable pub get_compact_array_length : M ℤ
get_compact_array_length = do n ← get_uvarint; pure (if n == 0 then pos 0 else int_pred n)

unfoldable pub bool_of : ℤ → M Bool
bool_of b =
    if eqb_ℤ b (pos 0) then pure false else if eqb_ℤ b (pos 1) then pure true else fail invalid_bool

unfoldable pub get_bool : M Bool
unfolding bool_of
get_bool = do b ← get_int8; bool_of b

unfoldable pub get_raw_bytes : ℤ → M (List ℕ)
unfolding fixed
get_raw_bytes (pos n) = fixed n
get_raw_bytes (negsuc n) = fail invalid_byte_slice_length

-- The loop of getEmptyTaggedFieldArray: `n` tags are passed over.
unfoldable pub skip_tags : ℕ → M (Unit {0})
skip_tags zero = pure tt
skip_tags (suc n) = do
  tag ← get_uvarint
  size ← get_uvarint
  bytes ← get_raw_bytes (signed (2 ^ 63) size)
  skip_tags n

unfoldable pub get_empty_tagged_field_array : M ℕ
unfolding skip_tags
get_empty_tagged_field_array = do count ← get_uvarint; skip_tags count; pure 0
