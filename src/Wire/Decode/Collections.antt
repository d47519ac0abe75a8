-- ===== src/Wire/Decode/Collections.antt =====
-- The methods of `realDecoder` that read byte slices, strings and arrays (real_decoder.go). An `int`
-- has 64 bits; a nil slice or string is `none`.
use sarama.Base.{
  ℕ, zero, suc, ◌+◌, ◌*◌, ◌^◌, List, [], ◌∷◌, Option, none, some, ltb, ◌==◌, if◌then◌else◌,
}
use sarama.Base.Int.{ℤ, pos, negsuc, signed, minus_one, ltb_ℤ, eqb_ℤ}
use sarama.Wire.Bytes.{un_be}
use sarama.Wire.Decode.Monad.{
  Decoder, ok, err, M, ◌>>=◌, pure, fail, crash, run_dry, remaining, slice, fixed, unchecked,
  insufficient_data, invalid_byte_slice_length, invalid_string_length,
}
use sarama.Wire.Decode.Primitives.{
  get_int16, get_int32, get_varint, get_uvarint, get_raw_bytes, int_pred,
}

-- -1 stands for nil.
unfoldable pub some_bytes : ℤ → M (Option (List ℕ))
some_bytes n = if eqb_ℤ n minus_one then pure none else do bs ← get_raw_bytes n; pure (some bs)

unfoldable pub get_bytes : M (Option (List ℕ))
unfolding some_bytes
get_bytes = do n ← get_int32; some_bytes n

unfoldable pub get_varint_bytes : M (Option (List ℕ))
unfolding some_bytes
get_varint_bytes = do n ← get_varint; some_bytes n

unfoldable pub get_compact_bytes : M (List ℕ)
get_compact_bytes = do n ← get_uvarint; get_raw_bytes (int_pred n)

unfoldable pub check_string_length : ℤ → M ℤ
check_string_length n d =
    if ltb_ℤ n minus_one
    then (d, err invalid_string_length)
    else if ltb_ℤ (pos (remaining d)) n
    then run_dry d
    else (d, ok n)

unfoldable pub get_string_length : M ℤ
unfolding check_string_length
get_string_length = do n ← get_int16; check_string_length n

-- `raw[off : off+n]`; a negative `n` other than -1 does not occur.
unfoldable pub string_of : ℤ → M (Option (List ℕ))
string_of (negsuc n) = pure none
string_of (pos n) = do bs ← unchecked n; pure (some bs)

unfoldable pub or_empty : Option (List ℕ) → List ℕ
or_empty none = []
or_empty (some bs) = bs

unfoldable pub get_nullable_string : M (Option (List ℕ))
unfolding string_of unchecked
get_nullable_string = do n ← get_string_length; string_of n

unfoldable pub get_string : M (List ℕ)
unfolding string_of unchecked or_empty
get_string = do n ← get_string_length; s ← string_of n; pure (or_empty s)

-- The two compact forms cut the string out with no check of what remains.
unfoldable pub compact_string_of : ℤ → M (List ℕ)
compact_string_of (negsuc n) = fail invalid_byte_slice_length
compact_string_of (pos n) = unchecked n

unfoldable pub get_compact_string : M (List ℕ)
unfolding compact_string_of unchecked
get_compact_string = do n ← get_uvarint; compact_string_of (int_pred n)

unfoldable pub get_compact_nullable_string : M (Option (List ℕ))
unfolding string_of unchecked
get_compact_nullable_string = do n ← get_uvarint; string_of (int_pred n)

-- The loops `for i := range ret` over an array of `n` numbers of `size` bytes.
unfoldable pub get_numbers : ℕ → (ℕ → ℤ) → ℕ → M (List ℤ)
unfolding unchecked un_be
get_numbers size convert zero = pure []
get_numbers size convert (suc n) = do
  bs ← unchecked size
  rest ← get_numbers size convert n
  pure (convert (un_be 0 bs) ∷ rest)

-- `make` panics on a negative length.
unfoldable pub compact_array_of : ℤ → M (Option (List ℤ))
compact_array_of (negsuc n) = crash
compact_array_of (pos n) = do xs ← get_numbers 4 (signed (2 ^ 31)) n; pure (some xs)

unfoldable pub get_compact_int32_array : M (Option (List ℤ))
unfolding compact_array_of
get_compact_int32_array = do
  n ← get_uvarint
  if n == 0 then pure none else compact_array_of (int_pred n)

-- `n` comes from a uint32, so the test `n < 0` that follows in the source never holds.
unfoldable pub sized_array : ℕ → (ℕ → ℤ) → ℕ → M (Option (List ℤ))
sized_array size convert n d =
    if ltb (remaining d) (size * n)
    then run_dry d
    else if n == 0
    then (d, ok none)
    else (do xs ← get_numbers size convert n; pure (some xs)) d

unfoldable pub get_int32_array : M (Option (List ℤ))
unfolding fixed un_be sized_array
get_int32_array = do bs ← fixed 4; sized_array 4 (signed (2 ^ 31)) (un_be 0 bs)

unfoldable pub get_int64_array : M (Option (List ℤ))
unfolding fixed un_be sized_array
get_int64_array = do bs ← fixed 4; sized_array 8 (signed (2 ^ 63)) (un_be 0 bs)

unfoldable pub get_strings : ℕ → M (List (List ℕ))
get_strings zero = pure []
get_strings (suc n) = do s ← get_string; rest ← get_strings n; pure (s ∷ rest)

unfoldable pub get_string_array : M (Option (List (List ℕ)))
unfolding fixed un_be get_strings
get_string_array = do
  bs ← fixed 4
  let n = un_be 0 bs
  if n == 0 then pure none else (do xs ← get_strings n; pure (some xs))

-- A decoder of its own over the next bytes.
unfoldable pub get_subset : ℤ → M Decoder
get_subset n = do bs ← get_raw_bytes n; pure (record { raw = bs; off = 0; stack = [] })

-- `offset` and `length` are numbers: the callers pass constants.
unfoldable pub peek : ℕ → ℕ → M Decoder
peek offset n d =
    if ltb (remaining d) (offset + n)
    then (d, err insufficient_data)
    else (d, ok (record { raw = slice (d.off + offset) n d.raw; off = 0; stack = [] }))

unfoldable pub peek_int8 : ℕ → M ℤ
unfolding un_be
peek_int8 offset d =
    if ltb (remaining d) (offset + 1)
    then (d, err insufficient_data)
    else (d, ok (signed 0x80 (un_be 0 (slice (d.off + offset) 1 d.raw))))
