-- ===== src/Wire/Decode/Monad.antt =====
-- The state of `realDecoder` (real_decoder.go), and what a method of it returns.
use sarama.Base.{ℕ, ◌+◌, ◌-◌, List, length, take, drop, ltb, if◌then◌else◌}
use sarama.Base.Int.{ℤ}
use sarama.Wire.Checksum.{Polynomial}

-- A field that is on the stack between `push` and `pop`: the pushDecoder of length_field.go and
-- crc32_field.go, with the offset that `saveOffset` noted and the length that was read.
pub data Frame : Type 0 where
  length_field : ℕ → ℤ → Frame
  varint_length_field : ℕ → ℤ → Frame
  crc32_field : ℕ → Polynomial → Frame

-- `stack` has the field pushed last first.
pub record Decoder : Type 0 where
  pub raw : List ℕ
  pub off : ℕ
  pub stack : List Frame

-- The errors, one for each text.
pub data DecodingError : Type 0 where
  insufficient_data invalid_array_length invalid_byte_slice_length : DecodingError
  invalid_string_length varint_overflow uvarint_overflow invalid_bool : DecodingError
  length_field_invalid crc_mismatch invalid_crc_type : DecodingError
  invalid_length : DecodingError

-- The value that Go returns beside an error is left out. `panic` is Go's run-time panic.
pub data Result {ℓ} (A : Type ℓ) : Type ℓ where
  ok : A → Result A
  err : DecodingError → Result A
  panic : Result A

abbrev pub M : Type 0 → Type 0
M A = Decoder → Decoder × Result A

abbrev pub next : {A B : Type 0} → Decoder × Result A → (A → M B) → Decoder × Result B
next (d, ok a) f = f a d
next (d, err e) f = (d, err e)
next (d, panic) f = (d, panic)

-- `if err != nil { return …, err }`
infixl 5 ◌>>=◌ ◌>>◌
abbrev pub ◌>>=◌ : {A B : Type 0} → M A → (A → M B) → M B
◌>>=◌ m f d = next (m d) f

abbrev pub ◌>>◌ : {B : Type 0} → M (Unit {0}) → M B → M B
◌>>◌ m k d = next (m d) (λ _. k)

abbrev pub pure : {A : Type 0} → A → M A
pure a d = (d, ok a)

abbrev pub fail : {A : Type 0} → DecodingError → M A
fail e d = (d, err e)

abbrev pub crash : {A : Type 0} → M A
crash d = (d, panic)

-- The offset never passes the end, so the truncated difference is Go's.
abbrev pub remaining : Decoder → ℕ
remaining d = length d.raw - d.off

-- `raw[off : off+n]`
abbrev pub slice : ℕ → ℕ → List ℕ → List ℕ
slice off n raw = take n (drop off raw)

-- `rd.off = len(rd.raw); return …, ErrInsufficientData`
abbrev pub run_dry : {A : Type 0} → M A
run_dry d = (record d { off = length d.raw }, err insufficient_data)

-- `rd.off += n` over the bytes that are passed.
abbrev pub advance : ℕ → M (List ℕ)
advance n d = (record d { off = d.off + n }, ok (slice d.off n d.raw))

-- The pattern of the fixed-width methods: `n` bytes, or an error at the end of the data.
unfoldable pub fixed : ℕ → M (List ℕ)
fixed n d = if ltb (remaining d) n then run_dry d else advance n d

-- An access to `n` bytes that the code does not check: Go panics past the end of the slice.
unfoldable pub unchecked : ℕ → M (List ℕ)
unchecked n d = if ltb (remaining d) n then (d, panic) else advance n d
