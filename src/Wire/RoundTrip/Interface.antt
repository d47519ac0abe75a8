-- ===== src/Wire/RoundTrip/Interface.antt =====
-- The reader of each writer, for the whole of the two interfaces.
use sarama.Base.{
  ◌++◌, ◌≡◌, ◌≤◌, ℕ, ◌+◌, ◌^◌, ◌<◌, true, false, List, length, All, add_one-eqb-zero, arith, none,
  some,
}
use sarama.Base.Int.{ℤ, pos, negsuc, Fits}
use sarama.Wire.Decode.Primitives.{
  get_compact_array_length, get_empty_tagged_field_array, skip_tags,
}
use sarama.Wire.Decode.Monad.{Frame, ok}
use sarama.Wire.Decode.Method.{Method, Value, run}
use sarama.Wire.Encode.Packet.{Put}
use sarama.Wire.Encode.Encoding.{put_bytes}
use sarama.Wire.Varint.{put_uvarint}
use sarama.Wire.RoundTrip.Reads.{here, Reads, raw_bytes-Reads, uvarint-Reads, varint-Reads}
use sarama.Wire.RoundTrip.Lengths.{get_array_length-put_bytes}
use sarama.Wire.RoundTrip.Puts
use sarama.Wire.RoundTrip.Puts.{compact_length_lem}
use sarama.Wire.RoundTrip.Arrays
use sarama.Wire.RoundTrip.Arrays.{nil_if_empty}

-- The method that reads what a method writes.
abbrev pub reader : Put → Method
reader (Put.int8 z) = Method.int8
reader (Put.int16 z) = Method.int16
reader (Put.int32 z) = Method.int32
reader (Put.int64 z) = Method.int64
reader (Put.varint z) = Method.varint
reader (Put.uvarint n) = Method.uvarint
reader (Put.float64 n) = Method.float64
reader (Put.array_length z) = Method.array_length
reader (Put.compact_array_length z) = Method.compact_array_length
reader (Put.bool b) = Method.bool
reader (Put.bytes bs) = Method.bytes
reader (Put.varint_bytes bs) = Method.varint_bytes
reader (Put.compact_bytes bs) = Method.compact_bytes
reader (Put.raw_bytes bs) = Method.raw_bytes (pos (length bs))
reader (Put.compact_string bs) = Method.compact_string
reader (Put.nullable_compact_string bs) = Method.compact_nullable_string
reader (Put.string bs) = Method.string
reader (Put.nullable_string bs) = Method.nullable_string
reader (Put.string_array ss) = Method.string_array
reader (Put.compact_int32_array xs) = Method.compact_int32_array
reader (Put.nullable_compact_int32_array xs) = Method.compact_int32_array
reader (Put.int32_array xs) = Method.int32_array
reader (Put.int64_array xs) = Method.int64_array
reader Put.empty_tagged_field_array = Method.empty_tagged_field_array

-- The value that was written, as its reader gives it: an empty array comes back as nil.
abbrev pub value : (p : Put) → Value (reader p)
value (Put.int8 z) = z
value (Put.int16 z) = z
value (Put.int32 z) = z
value (Put.int64 z) = z
value (Put.varint z) = z
value (Put.uvarint n) = n
value (Put.float64 n) = n
value (Put.array_length z) = z
value (Put.compact_array_length z) = z
value (Put.bool b) = b
value (Put.bytes bs) = bs
value (Put.varint_bytes bs) = bs
value (Put.compact_bytes bs) = bs
value (Put.raw_bytes bs) = bs
value (Put.compact_string bs) = bs
value (Put.nullable_compact_string bs) = bs
value (Put.string bs) = bs
value (Put.nullable_string bs) = bs
value (Put.string_array ss) = nil_if_empty ss
value (Put.compact_int32_array xs) = xs
value (Put.nullable_compact_int32_array xs) = xs
value (Put.int32_array xs) = nil_if_empty xs
value (Put.int64_array xs) = nil_if_empty xs
value Put.empty_tagged_field_array = 0

abbrev pub Int32s : List ℤ → Type 0
Int32s xs = All (Fits (2 ^ 31)) xs

-- The value is of its Go type, and its size is one that both passes and the reader accept. The two
-- lengths must be those of an array that is not nil, and a compact array must not be nil where the
-- writer refuses that.
abbrev pub IsSayable : Put → Type 0
IsSayable (Put.int8 z) = Fits 0x80 z
IsSayable (Put.int16 z) = Fits 0x8000 z
IsSayable (Put.int32 z) = Fits (2 ^ 31) z
IsSayable (Put.int64 z) = Fits (2 ^ 63) z
IsSayable (Put.varint z) = Fits (2 ^ 63) z
IsSayable (Put.uvarint n) = n < 2 ^ 64
IsSayable (Put.float64 n) = n < 2 ^ 64
IsSayable (Put.array_length (pos n)) = n ≤ 131070
IsSayable (Put.array_length (negsuc n)) = ⊥
IsSayable (Put.compact_array_length (pos n)) = n < 2 ^ 63
IsSayable (Put.compact_array_length (negsuc n)) = ⊥
IsSayable (Put.bytes (some bs)) = length bs < 2 ^ 31
IsSayable (Put.varint_bytes (some bs)) = length bs < 2 ^ 31
IsSayable (Put.compact_bytes bs) = length bs < 2 ^ 31
IsSayable (Put.raw_bytes bs) = length bs < 2 ^ 31
IsSayable (Put.compact_string bs) = length bs < 2 ^ 31
IsSayable (Put.nullable_compact_string (some bs)) = length bs < 2 ^ 31
IsSayable (Put.string bs) = length bs < 2 ^ 15
IsSayable (Put.nullable_string (some bs)) = length bs < 2 ^ 15
IsSayable (Put.string_array ss) = (length ss < 2 ^ 31) × All (λ s. length s < 2 ^ 15) ss
IsSayable (Put.compact_int32_array none) = ⊥
IsSayable (Put.compact_int32_array (some xs)) = (length xs < 2 ^ 63) × Int32s xs
IsSayable (Put.nullable_compact_int32_array (some xs)) = (length xs < 2 ^ 63) × Int32s xs
IsSayable (Put.int32_array xs) = (length xs < 2 ^ 31) × Int32s xs
IsSayable (Put.int64_array xs) = (length xs < 2 ^ 31) × All (Fits (2 ^ 63)) xs
IsSayable _ = Unit {0}

-- The plain array length is weighed against the bytes that follow it: each element takes one.
abbrev pub HasRoom : Put → List ℕ → Type 0
HasRoom (Put.array_length (pos n)) rest = n ≤ length rest
HasRoom _ rest = Unit {0}

compact_array_length-Reads :
    (n : ℕ)
    → n < 2 ^ 63
    → Reads get_compact_array_length (put_bytes (Put.compact_array_length (pos n))) (pos n)
unfolding get_compact_array_length put_bytes
compact_array_length-Reads n h before rest st =
    let (written, back) = compact_length_lem n h in
    rw (written, uvarint-Reads (n + 1) (omega arith) before rest st, add_one-eqb-zero n, back)

tags-Reads : Reads get_empty_tagged_field_array (put_uvarint 0) 0
unfolding get_empty_tagged_field_array skip_tags
tags-Reads before rest st = rw (uvarint-Reads 0 (omega arith) before rest st)

-- What the format has for a call is read back, wherever the bytes stand, and up to where they end.
pub run-put :
    (p : Put)
    → IsSayable p
    → (before rest : List ℕ) (st : List Frame) → HasRoom p rest
    → run (reader p) (here before (put_bytes p ++ rest) st)
      ≡ (here (before ++ put_bytes p) rest st, ok (value p))
unfolding run put_bytes
run-put (Put.int8 z) h before rest st r = Puts.int8-Reads z h before rest st
run-put (Put.int16 z) h before rest st r = Puts.int16-Reads z h before rest st
run-put (Put.int32 z) h before rest st r = Puts.int32-Reads z h before rest st
run-put (Put.int64 z) h before rest st r = Puts.int64-Reads z h before rest st
run-put (Put.varint z) h before rest st r = varint-Reads z h before rest st
run-put (Put.uvarint n) h before rest st r = uvarint-Reads n h before rest st
run-put (Put.float64 n) h before rest st r = Puts.float64-Reads n h before rest st
run-put (Put.array_length (pos n)) h before rest st r =
    get_array_length-put_bytes n before rest st r h
run-put (Put.array_length (negsuc n)) h before rest st r = absurd h
run-put (Put.compact_array_length (pos n)) h before rest st r =
    compact_array_length-Reads n h before rest st
run-put (Put.compact_array_length (negsuc n)) h before rest st r = absurd h
run-put (Put.bool true) h before rest st r = Puts.bool-Reads true before rest st
run-put (Put.bool false) h before rest st r = Puts.bool-Reads false before rest st
run-put (Put.bytes none) h before rest st r = Puts.null_bytes-Reads before rest st
run-put (Put.bytes (some bs)) h before rest st r = Puts.bytes-Reads bs h before rest st
run-put (Put.varint_bytes none) h before rest st r = Puts.null_varint_bytes-Reads before rest st
run-put (Put.varint_bytes (some bs)) h before rest st r =
    Puts.varint_bytes-Reads bs (omega (arith, h)) before rest st
run-put (Put.compact_bytes bs) h before rest st r =
    Puts.compact_bytes-Reads bs (omega (arith, h)) before rest st
run-put (Put.raw_bytes bs) h before rest st r = raw_bytes-Reads bs before rest st
run-put (Put.compact_string bs) h before rest st r =
    Puts.compact_string-Reads bs (omega (arith, h)) before rest st
run-put (Put.nullable_compact_string none) h before rest st r =
    unfold put_uvarint in Puts.null_compact_string-Reads before rest st
run-put (Put.nullable_compact_string (some bs)) h before rest st r =
    Puts.compact_nullable_string-Reads bs (omega (arith, h)) before rest st
run-put (Put.string bs) h before rest st r = Arrays.string-Reads bs h before rest st
run-put (Put.nullable_string none) h before rest st r = Arrays.null_string-Reads before rest st
run-put (Put.nullable_string (some bs)) h before rest st r =
    Arrays.nullable_string-Reads bs h before rest st
run-put (Put.string_array ss) h before rest st r =
    Arrays.string_array-Reads ss (omega (arith, h.0)) h.1 before rest st
run-put (Put.compact_int32_array none) h before rest st r = absurd h
run-put (Put.compact_int32_array (some xs)) h before rest st r =
    Arrays.compact_int32_array-Reads xs h.0 h.1 before rest st
run-put (Put.nullable_compact_int32_array none) h before rest st r =
    Arrays.null_compact_int32_array-Reads before rest st
run-put (Put.nullable_compact_int32_array (some xs)) h before rest st r =
    Arrays.compact_int32_array-Reads xs h.0 h.1 before rest st
run-put (Put.int32_array xs) h before rest st r =
    Arrays.int32_array-Reads xs (omega (arith, h.0)) h.1 before rest st
run-put (Put.int64_array xs) h before rest st r =
    Arrays.int64_array-Reads xs (omega (arith, h.0)) h.1 before rest st
run-put Put.empty_tagged_field_array h before rest st r = tags-Reads before rest st
