-- ===== src/Wire/RoundTrip/Puts.antt =====
-- For each method that writes, the method that reads its bytes, and what it reads.
use sarama.Base.{
  ℕ, ◌+◌, ◌*◌, ◌^◌, ◌<◌, ◌≡◌, refl, ap, ◌∙◌, Bool, true, false, List, ◌++◌, length, arith,
  if◌then◌else◌, none, some,
}
use sarama.Base.Int.{ℤ, pos, unsigned, Fits, minus_one}
use sarama.Wire.Bytes.{be}
use sarama.Wire.Varint.{put_uvarint}
use sarama.Wire.Decode.Monad.{M, ◌>>=◌, unchecked}
use sarama.Wire.Decode.Primitives.{
  get_int8, get_int16, get_int32, get_int64, get_varint, get_uvarint, get_float64, get_bool,
  bool_of, get_raw_bytes, int_pred, int_pred-pos,
}
use sarama.Wire.Decode.Collections.{
  get_bytes, get_varint_bytes, get_compact_bytes, get_compact_string, get_compact_nullable_string,
  some_bytes, string_of, compact_string_of,
}
use sarama.Wire.Encode.Prep.{compact_length}
use sarama.Wire.Encode.Encoding.{int16_bytes, int32_bytes, int64_bytes, compact_bytes}
use sarama.Wire.RoundTrip.Reads.{
  Reads, unchecked-Reads, raw_bytes-Reads, uvarint-Reads, varint-Reads, bind-Reads, map-Reads,
  number-Reads, signed-Reads,
}

pub int8-Reads : (z : ℤ) → Fits 0x80 z → Reads get_int8 (be 1 (unsigned 0x80 z)) z
unfolding get_int8
int8-Reads z h = signed-Reads 1 0x80 z refl h

pub int16-Reads : (z : ℤ) → Fits 0x8000 z → Reads get_int16 (int16_bytes z) z
unfolding get_int16
int16-Reads z h = signed-Reads 2 0x8000 z refl h

pub int32-Reads : (z : ℤ) → Fits (2 ^ 31) z → Reads get_int32 (int32_bytes z) z
unfolding get_int32
int32-Reads z h = signed-Reads 4 (2 ^ 31) z refl h

pub int64-Reads : (z : ℤ) → Fits (2 ^ 63) z → Reads get_int64 (int64_bytes z) z
unfolding get_int64
int64-Reads z h = signed-Reads 8 (2 ^ 63) z refl h

pub float64-Reads : (x : ℕ) → x < 2 ^ 64 → Reads get_float64 (be 8 x) x
unfolding get_float64
float64-Reads x h = number-Reads 8 x (λ n. n) h

pub bool-Reads : (b : Bool) → Reads get_bool (be 1 (if b then 1 else 0)) b
unfolding get_bool bool_of
bool-Reads true before rest st = rw (int8-Reads (pos 1) (omega arith) before rest st)
bool-Reads false before rest st = rw (int8-Reads (pos 0) (omega arith) before rest st)

-- The compact length of `n` elements is read back.
pub compact_length_lem :
    (n : ℕ) → n < 2 ^ 63 → (compact_length (pos n) ≡ n + 1) × (int_pred (n + 1) ≡ pos n)
compact_length_lem n h =
    (omega arith, int_pred-pos (n + 1) (omega arith) (omega arith) ∙ ap pos (omega arith))

-- A compact length, and the method that goes on with it.
pub compact-Reads :
    {A : Type 0} (f : ℤ → M A) (n : ℕ) (bs : List ℕ) (v : A)
    → n < 2 ^ 63
    → Reads (f (pos n)) bs v
    → Reads (get_uvarint >>= λ x. f (int_pred x)) (put_uvarint (n + 1) ++ bs) v
compact-Reads f n bs v h r =
    bind-Reads get_uvarint (λ x. f (int_pred x)) (put_uvarint (n + 1)) bs (n + 1) v
      (uvarint-Reads (n + 1) (omega arith)) (rw ((compact_length_lem n h).1) r)

pub compact_bytes-Reads :
    (bs : List ℕ)
    → length bs < 2 ^ 63
    → Reads get_compact_bytes (put_uvarint (length bs + 1) ++ bs) bs
unfolding get_compact_bytes
compact_bytes-Reads bs h = compact-Reads get_raw_bytes (length bs) bs bs h (raw_bytes-Reads bs)

pub compact_string-Reads :
    (bs : List ℕ) → length bs < 2 ^ 63 → Reads get_compact_string (compact_bytes bs) bs
unfolding get_compact_string compact_string_of
compact_string-Reads bs h =
    rw ((compact_length_lem (length bs) h).0)
      (compact-Reads compact_string_of (length bs) bs bs h (unchecked-Reads (length bs) bs refl))

pub string_of-Reads : (bs : List ℕ) → Reads (string_of (pos (length bs))) bs (some bs)
unfolding string_of
string_of-Reads bs =
    map-Reads (unchecked (length bs)) some bs bs (unchecked-Reads (length bs) bs refl)

pub compact_nullable_string-Reads :
    (bs : List ℕ)
    → length bs < 2 ^ 63
    → Reads get_compact_nullable_string (compact_bytes bs) (some bs)
unfolding get_compact_nullable_string
compact_nullable_string-Reads bs h =
    rw ((compact_length_lem (length bs) h).0)
      (compact-Reads string_of (length bs) bs (some bs) h (string_of-Reads bs))

pub null_compact_string-Reads : Reads get_compact_nullable_string (put_uvarint 0) none
unfolding get_compact_nullable_string string_of
null_compact_string-Reads before rest st = rw (uvarint-Reads 0 (omega arith) before rest st)

some_bytes-Reads : (bs : List ℕ) → Reads (some_bytes (pos (length bs))) bs (some bs)
unfolding some_bytes
some_bytes-Reads bs = map-Reads (get_raw_bytes (pos (length bs))) some bs bs (raw_bytes-Reads bs)

pub bytes-Reads :
    (bs : List ℕ)
    → length bs < 2 ^ 31
    → Reads get_bytes (int32_bytes (pos (length bs)) ++ bs) (some bs)
unfolding get_bytes
bytes-Reads bs h =
    bind-Reads get_int32 some_bytes (int32_bytes (pos (length bs))) bs (pos (length bs)) (some bs)
      (int32-Reads (pos (length bs)) h) (some_bytes-Reads bs)

pub null_bytes-Reads : Reads get_bytes (int32_bytes minus_one) none
unfolding get_bytes some_bytes
null_bytes-Reads before rest st = rw (int32-Reads minus_one (omega arith) before rest st)

pub varint_bytes-Reads :
    (bs : List ℕ)
    → length bs < 2 ^ 63
    → Reads get_varint_bytes (put_uvarint (2 * length bs) ++ bs) (some bs)
unfolding get_varint_bytes
varint_bytes-Reads bs h =
    bind-Reads get_varint some_bytes (put_uvarint (2 * length bs)) bs (pos (length bs)) (some bs)
      (varint-Reads (pos (length bs)) h) (some_bytes-Reads bs)

pub null_varint_bytes-Reads : Reads get_varint_bytes (put_uvarint 1) none
unfolding get_varint_bytes some_bytes
null_varint_bytes-Reads before rest st = rw (varint-Reads minus_one (omega arith) before rest st)
