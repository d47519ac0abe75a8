-- ===== src/Wire/Encode/Encoding.antt =====
-- The wire format itself: the bytes of a packet, with no offsets, buffers or passes.
use sarama.Base.{ℕ, ◌+◌, ◌*◌, ◌^◌, true, false, List, [], ◌∷◌, ◌++◌, length, none, some}
use sarama.Base.Int.{ℤ, pos, unsigned, minus_one}
use sarama.Wire.Bytes.{be}
use sarama.Wire.Varint.{put_uvarint, zigzag}
use sarama.Wire.Checksum.{ieee, castagnoli, unknown, checksum, ieee_table, castagnoli_table}
use sarama.Wire.Encode.Packet.{
  Put, PushField, length_field, varint_length_field, crc32_field, Packet, end, put, framed,
}
use sarama.Wire.Encode.Prep.{compact_length}

abbrev pub int16_bytes : ℤ → List ℕ
int16_bytes z = be 2 (unsigned 0x8000 z)

abbrev pub int32_bytes : ℤ → List ℕ
int32_bytes z = be 4 (unsigned (2 ^ 31) z)

abbrev pub int64_bytes : ℤ → List ℕ
int64_bytes z = be 8 (unsigned (2 ^ 63) z)

abbrev pub string_bytes : List ℕ → List ℕ
string_bytes bs = int16_bytes (pos (length bs)) ++ bs

abbrev pub compact_bytes : List ℕ → List ℕ
compact_bytes bs = put_uvarint (compact_length (pos (length bs))) ++ bs

-- The encodings of the elements, one after the other.
unfoldable pub all_bytes {ℓ} : {A : Type ℓ} → (A → List ℕ) → List A → List ℕ
all_bytes f [] = []
all_bytes f (x ∷ xs) = f x ++ all_bytes f xs

unfoldable pub put_bytes : Put → List ℕ
put_bytes (Put.int8 z) = be 1 (unsigned 0x80 z)
put_bytes (Put.int16 z) = int16_bytes z
put_bytes (Put.int32 z) = int32_bytes z
put_bytes (Put.int64 z) = int64_bytes z
put_bytes (Put.varint z) = put_uvarint (zigzag z)
put_bytes (Put.uvarint n) = put_uvarint n
put_bytes (Put.float64 n) = be 8 n
put_bytes (Put.array_length z) = int32_bytes z
put_bytes (Put.compact_array_length z) = put_uvarint (compact_length z)
put_bytes (Put.bool true) = be 1 1
put_bytes (Put.bool false) = be 1 0
put_bytes (Put.bytes none) = int32_bytes minus_one
put_bytes (Put.bytes (some bs)) = int32_bytes (pos (length bs)) ++ bs
put_bytes (Put.varint_bytes none) = put_uvarint 1
put_bytes (Put.varint_bytes (some bs)) = put_uvarint (2 * length bs) ++ bs
put_bytes (Put.compact_bytes bs) = put_uvarint (length bs + 1) ++ bs
put_bytes (Put.compact_string bs) = compact_bytes bs
put_bytes (Put.nullable_compact_string none) = 0 ∷ []
put_bytes (Put.nullable_compact_string (some bs)) = compact_bytes bs
put_bytes (Put.raw_bytes bs) = bs
put_bytes (Put.string bs) = string_bytes bs
put_bytes (Put.nullable_string none) = int16_bytes minus_one
put_bytes (Put.nullable_string (some bs)) = string_bytes bs
put_bytes (Put.string_array ss) = int32_bytes (pos (length ss)) ++ all_bytes string_bytes ss
put_bytes (Put.compact_int32_array none) = []
put_bytes (Put.compact_int32_array (some xs)) =
    put_uvarint (length xs + 1) ++ all_bytes int32_bytes xs
put_bytes (Put.nullable_compact_int32_array none) = put_uvarint 0
put_bytes (Put.nullable_compact_int32_array (some xs)) =
    put_uvarint (length xs + 1) ++ all_bytes int32_bytes xs
put_bytes (Put.int32_array xs) = int32_bytes (pos (length xs)) ++ all_bytes int32_bytes xs
put_bytes (Put.int64_array xs) = int32_bytes (pos (length xs)) ++ all_bytes int64_bytes xs
put_bytes Put.empty_tagged_field_array = put_uvarint 0

-- The bytes of a push field over the bytes that it is about.
unfoldable pub field_bytes : PushField → List ℕ → List ℕ
field_bytes length_field body = be 4 (length body)
field_bytes (varint_length_field z) body = put_uvarint (zigzag (pos (length body)))
field_bytes (crc32_field ieee) body = be 4 (checksum ieee_table body)
field_bytes (crc32_field castagnoli) body = be 4 (checksum castagnoli_table body)
field_bytes (crc32_field unknown) body = []

unfoldable pub encoding : Packet → List ℕ
encoding end = []
encoding (put p rest) = put_bytes p ++ encoding rest
encoding (framed f body rest) = field_bytes f (encoding body) ++ (encoding body ++ encoding rest)
