-- ===== src/Wire/Encode/Packet.antt =====
-- What an `encode` method asks of a packetEncoder (packet_encoder.go): the calls that it makes, in
-- order. A string is its bytes; a nil slice or string is `none`.
use sarama.Base.{ℕ, Bool, List, Option}
use sarama.Base.Int.{ℤ}
use sarama.Wire.Checksum.{Polynomial}

-- A call of one method of the interface. A float64 is given by its bits.
pub data Put : Type 0 where
  int8 int16 int32 int64 varint array_length compact_array_length : ℤ → Put
  uvarint float64 : ℕ → Put
  bool : Bool → Put
  raw_bytes compact_bytes compact_string string : List ℕ → Put
  bytes varint_bytes nullable_compact_string nullable_string : Option (List ℕ) → Put
  string_array : List (List ℕ) → Put
  compact_int32_array nullable_compact_int32_array : Option (List ℤ) → Put
  int32_array int64_array : List ℤ → Put
  empty_tagged_field_array : Put

-- A pushEncoder (length_field.go, crc32_field.go). A varint length field is an object that keeps its
-- length from one pass to the next.
pub data PushField : Type 0 where
  length_field : PushField
  varint_length_field : ℤ → PushField
  crc32_field : Polynomial → PushField

-- `framed f body rest`: push(f), the calls of `body`, pop(), the calls of `rest`.
pub data Packet : Type 0 where
  end : Packet
  put : Put → Packet → Packet
  framed : PushField → Packet → Packet → Packet

-- `nothing_pushed` is the panic of a pop from an empty stack, `out_of_range` that of a write.
pub data EncodingError : Type 0 where
  array_too_long byteslice_too_long string_too_long null_int32_array : EncodingError
  invalid_request_size invalid_crc_type nothing_pushed out_of_range : EncodingError

pub data Outcome {ℓ} (A : Type ℓ) : Type ℓ where
  ok : A → Outcome A
  err : EncodingError → Outcome A

-- `if err != nil { return err }`
infixl 5 ◌>>=◌
abbrev pub ◌>>=◌ {ℓ κ} : {A : Type ℓ} {B : Type κ} → Outcome A → (A → Outcome B) → Outcome B
ok a >>= f = f a
err e >>= f = err e
