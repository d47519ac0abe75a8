-- ===== src/Wire/Decode/Panics.antt =====
-- No method of the reader leaves its bytes, and all but a few never panic.
use sarama.Base.{ℕ, List, [], ◌∷◌, arith}
use sarama.Base.Int.{ℤ}
use sarama.Wire.Decode.Monad.{Decoder, Frame}
use sarama.Wire.Decode.Primitives.{
  get_int8, get_int64, get_float64, get_array_length, get_compact_array_length, get_bool, bool_of,
  get_empty_tagged_field_array,
}
use sarama.Wire.Decode.Collections.{
  get_bytes, get_varint_bytes, get_compact_bytes, get_compact_string, get_compact_nullable_string,
  get_compact_int32_array, get_int32_array, get_int64_array, get_string_array, get_subset, peek,
  peek_int8,
}
use sarama.Wire.Decode.Fields
use sarama.Wire.Decode.Fields.{pop_frame}
use sarama.Wire.Decode.Method.{Method, run}
use sarama.Wire.Decode.Sound.{
  InBounds, Ends, Sound, bind-Sound, pure-Sound, if_Sound, fixed-Sound, get_varint-Sound,
  get_uvarint-Sound, get_raw_bytes-Sound,
}
use sarama.Wire.Decode.Bounds

bool_of-Sound : (P : Type 0) (b : ℤ) → Sound P (bool_of b)
unfolding bool_of
bool_of-Sound P b d h = ground arith

get_bool-Sound : (P : Type 0) → Sound P get_bool
unfolding get_bool get_int8
get_bool-Sound P = bind-Sound P _ _ (Bounds.fixed_number-Sound P 1 _) λ b. bool_of-Sound P b

get_empty_tagged_field_array-Sound : (P : Type 0) → Sound P get_empty_tagged_field_array
unfolding get_empty_tagged_field_array
get_empty_tagged_field_array-Sound P =
    bind-Sound P _ _ (get_uvarint-Sound P)
      λ count. bind-Sound P _ _ (Bounds.skip_tags-Sound P count) λ _. pure-Sound P _

get_string_array-Sound : (P : Type 0) → Sound P get_string_array
unfolding get_string_array
get_string_array-Sound P = bind-Sound P _ _ (fixed-Sound P 4) λ bs.
    if_Sound P _ _ _ (pure-Sound P _)
      (bind-Sound P _ _ (Bounds.get_strings-Sound P _) λ xs. pure-Sound P _)

get_compact_int32_array-Sound : Sound Bounds.Any get_compact_int32_array
unfolding get_compact_int32_array
get_compact_int32_array-Sound =
    bind-Sound _ _ _ (get_uvarint-Sound _)
      λ n. if_Sound _ _ _ _ (pure-Sound _ _) (Bounds.compact_array_of-Sound _)

peek-Sound : (P : Type 0) (offset n : ℕ) → Sound P (peek offset n)
unfolding peek
peek-Sound P offset n d b = ground arith

peek_int8-Sound : (P : Type 0) (offset : ℕ) → Sound P (peek_int8 offset)
unfolding peek_int8
peek_int8-Sound P offset d b = ground arith

pop-Sound : Sound Bounds.Any Fields.pop
unfolding Fields.pop
pop-Sound d b = go d.stack
  where
    go : (fs : List Frame) → Ends Bounds.Any d (pop_frame fs d)
    go [] = ground arith
    go (f ∷ fs) = ground arith

-- The methods that cut into the bytes with no check, and `pop`, which wants a field on the stack.
abbrev pub Unchecked : Method → Type 0
Unchecked Method.compact_string = Unit {0}
Unchecked Method.compact_nullable_string = Unit {0}
Unchecked Method.compact_int32_array = Unit {0}
Unchecked Method.pop = Unit {0}
Unchecked _ = ⊥

-- A method of the reader that starts inside its bytes leaves the bytes as they are and ends, with
-- whatever result, at an offset that is no lower and not past the end; and no method panics but
-- getCompactString, getCompactNullableString, getCompactInt32Array and pop.
pub run-Ends : (m : Method) (d : Decoder) → InBounds d → Ends (Unchecked m) d (run m d)
unfolding run
run-Ends Method.int8 = unfold get_int8 in Bounds.fixed_number-Sound _ 1 _
run-Ends Method.int16 = Bounds.get_int16-Sound _
run-Ends Method.int32 = Bounds.get_int32-Sound _
run-Ends Method.int64 = unfold get_int64 in Bounds.fixed_number-Sound _ 8 _
run-Ends Method.varint = get_varint-Sound _
run-Ends Method.uvarint = get_uvarint-Sound _
run-Ends Method.float64 = unfold get_float64 in Bounds.fixed_number-Sound _ 8 _
run-Ends Method.array_length =
    unfold get_array_length in
    bind-Sound _ _ _ (fixed-Sound _ 4) λ bs. Bounds.check_length-Sound _ _
run-Ends Method.compact_array_length =
    unfold get_compact_array_length in bind-Sound _ _ _ (get_uvarint-Sound _) λ n. pure-Sound _ _
run-Ends Method.bool = get_bool-Sound _
run-Ends Method.empty_tagged_field_array = get_empty_tagged_field_array-Sound _
run-Ends Method.bytes =
    unfold get_bytes in bind-Sound _ _ _ (Bounds.get_int32-Sound _) (Bounds.some_bytes-Sound _)
run-Ends Method.varint_bytes =
    unfold get_varint_bytes in bind-Sound _ _ _ (get_varint-Sound _) (Bounds.some_bytes-Sound _)
run-Ends Method.compact_bytes =
    unfold get_compact_bytes in bind-Sound _ _ _ (get_uvarint-Sound _) λ n. get_raw_bytes-Sound _ _
run-Ends Method.string = Bounds.get_string-Sound _
run-Ends Method.nullable_string = Bounds.get_nullable_string-Sound _
run-Ends Method.compact_string =
    unfold get_compact_string in
    bind-Sound _ _ _ (get_uvarint-Sound _) λ n. Bounds.compact_string_of-Sound _
run-Ends Method.compact_nullable_string =
    unfold get_compact_nullable_string in
    bind-Sound _ _ _ (get_uvarint-Sound _) λ n. Bounds.string_of-Sound _
run-Ends Method.compact_int32_array = get_compact_int32_array-Sound
run-Ends Method.int32_array =
    unfold get_int32_array in
    bind-Sound _ _ _ (fixed-Sound _ 4) λ bs. Bounds.sized_array-Sound _ 4 _ _
run-Ends Method.int64_array =
    unfold get_int64_array in
    bind-Sound _ _ _ (fixed-Sound _ 4) λ bs. Bounds.sized_array-Sound _ 8 _ _
run-Ends Method.string_array = get_string_array-Sound _
run-Ends Method.pop = pop-Sound
run-Ends (Method.raw_bytes n) = get_raw_bytes-Sound _ n
run-Ends (Method.subset n) =
    unfold get_subset in bind-Sound _ _ _ (get_raw_bytes-Sound _ n) λ bs. pure-Sound _ _
run-Ends (Method.peek_at o n) = peek-Sound _ o n
run-Ends (Method.peek_int8_at o) = peek_int8-Sound _ o
run-Ends (Method.push f) = Bounds.push-Sound _ f
