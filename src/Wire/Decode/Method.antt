-- ===== src/Wire/Decode/Method.antt =====
-- The interface `packetDecoder` (packet_decoder.go), less its parts that read nothing: one
-- constructor for each method.
use sarama.Base.{ℕ, Bool, List, Option}
use sarama.Base.Int.{ℤ}
use sarama.Wire.Decode.Monad.{Decoder, M}
use sarama.Wire.Decode.Primitives.{
  get_int8, get_int16, get_int32, get_int64, get_varint, get_uvarint, get_float64, get_array_length,
  get_compact_array_length, get_bool, get_empty_tagged_field_array, get_raw_bytes,
}
use sarama.Wire.Decode.Collections.{
  get_bytes, get_varint_bytes, get_compact_bytes, get_string, get_nullable_string,
  get_compact_string, get_compact_nullable_string, get_compact_int32_array, get_int32_array,
  get_int64_array, get_string_array, get_subset, peek, peek_int8,
}
use sarama.Wire.Decode.Fields

pub data Method : Type 0 where
  int8 int16 int32 int64 varint uvarint float64 array_length compact_array_length : Method
  bool empty_tagged_field_array bytes varint_bytes compact_bytes string nullable_string : Method
  compact_string compact_nullable_string compact_int32_array int32_array int64_array : Method
  string_array pop : Method
  raw_bytes subset : ℤ → Method
  peek_at : ℕ → ℕ → Method
  peek_int8_at : ℕ → Method
  push : Fields.Field → Method

-- The type of a method's value.
abbrev pub Value : Method → Type 0
Value float64 = ℕ
Value uvarint = ℕ
Value empty_tagged_field_array = ℕ
Value bool = Bool
Value bytes = Option (List ℕ)
Value varint_bytes = Option (List ℕ)
Value compact_bytes = List ℕ
Value (raw_bytes n) = List ℕ
Value string = List ℕ
Value nullable_string = Option (List ℕ)
Value compact_string = List ℕ
Value compact_nullable_string = Option (List ℕ)
Value compact_int32_array = Option (List ℤ)
Value int32_array = Option (List ℤ)
Value int64_array = Option (List ℤ)
Value string_array = Option (List (List ℕ))
Value (subset n) = Decoder
Value (peek_at o n) = Decoder
Value (push f) = Unit {0}
Value pop = Unit {0}
Value _ = ℤ

unfoldable pub run : (m : Method) → M (Value m)
run int8 = get_int8
run int16 = get_int16
run int32 = get_int32
run int64 = get_int64
run varint = get_varint
run uvarint = get_uvarint
run float64 = get_float64
run array_length = get_array_length
run compact_array_length = get_compact_array_length
run bool = get_bool
run empty_tagged_field_array = get_empty_tagged_field_array
run bytes = get_bytes
run varint_bytes = get_varint_bytes
run compact_bytes = get_compact_bytes
run (raw_bytes n) = get_raw_bytes n
run string = get_string
run nullable_string = get_nullable_string
run compact_string = get_compact_string
run compact_nullable_string = get_compact_nullable_string
run compact_int32_array = get_compact_int32_array
run int32_array = get_int32_array
run int64_array = get_int64_array
run string_array = get_string_array
run (subset n) = get_subset n
run (peek_at o n) = peek o n
run (peek_int8_at o) = peek_int8 o
run (push f) = Fields.push f
run pop = Fields.pop
