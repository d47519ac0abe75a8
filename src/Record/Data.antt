-- ===== src/Record/Data.antt =====
-- The records of record.go, and their times.
use Prim.Native.Nat.{◌/◌}
use sarama.Base.{ℕ, zero, suc, ◌+◌, ◌*◌, ◌^◌, List, [], Option, none, some}
use sarama.Base.Int.{ℤ, pos, negsuc, signed, unsigned}

-- A byte slice is none where it is nil.
pub record RecordHeader : Type 0 where
  pub key : Option (List ℕ)
  pub value : Option (List ℕ)

-- `timestamp_delta` counts nanoseconds, as a time.Duration does. The length field, which only
-- encoding and decoding use, stands on the decoder's stack and in the packet.
pub record Record : Type 0 where
  pub headers : Option (List RecordHeader)
  pub attributes : ℤ
  pub timestamp_delta : ℤ
  pub offset_delta : ℤ
  pub key : Option (List ℕ)
  pub value : Option (List ℕ)

abbrev pub millisecond : ℕ
millisecond = 1000000

abbrev pub negate : ℕ → ℤ
negate zero = pos 0
negate (suc n) = negsuc n

-- `d / time.Millisecond`, which rounds towards 0.
unfoldable pub to_millis : ℤ → ℤ
to_millis (pos n) = pos (n / millisecond)
to_millis (negsuc n) = negate ((n + 1) / millisecond)

-- `time.Duration(n) * time.Millisecond`, which wraps.
unfoldable pub of_millis : ℤ → ℤ
of_millis (pos n) = signed (2 ^ 63) (unsigned (2 ^ 63) (pos (n * millisecond)))
of_millis (negsuc n) = signed (2 ^ 63) (unsigned (2 ^ 63) (negate ((n + 1) * millisecond)))

-- The headers, of which a nil slice has none.
abbrev pub header_list : Record → List RecordHeader
header_list r = elim r.headers [ none ↦ [] | some hs ↦ hs ]
