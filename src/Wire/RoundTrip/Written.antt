-- ===== src/Wire/RoundTrip/Written.antt =====
-- What the two passes write of one call, its method of the decoder reads back.
use sarama.Base.{
  ℕ, ◌+◌, ◌*◌, ◌^◌, ◌≤◌, ◌<◌, ◌≡◌, refl, ◌∙◌, List, [], ◌∷◌, ◌++◌, length, All, none, some, le→ltb,
  append-nil, arith,
}
use sarama.Base.Int.{pos, negsuc}
use sarama.Wire.Decode.Monad
use sarama.Wire.Decode.Monad.{Frame}
use sarama.Wire.Decode.Method.{run}
use sarama.Wire.Encode.Packet.{Put, end, put, ok}
use sarama.Wire.Encode.Prep.{
  prep, prep_put, prep_raw_bytes, prep_string, prep_strings, prep_array_length,
}
use sarama.Wire.Encode.Passes.{encode}
use sarama.Wire.Encode.Encoding.{put_bytes, encoding}
use sarama.Wire.Encode.Agree.{encode-encoding}
use sarama.Wire.RoundTrip.Reads.{here}
use sarama.Wire.RoundTrip.Interface.{reader, value, IsSayable, HasRoom, run-put}

-- A call that the first pass does not refuse, wherever it comes.
abbrev pub Fine : Put → Type 0
Fine p = (n : ℕ) → (k : ℕ) × (prep_put p n ≡ ok k)

raw_bytes-Fine : (bs : List ℕ) (n : ℕ) → length bs < 2 ^ 31 → (k : ℕ) × (prep_raw_bytes bs n ≡ ok k)
unfolding prep_raw_bytes
raw_bytes-Fine bs n h = (n + length bs, rw (le→ltb 2147483647 (length bs) (omega (arith, h))) refl)

short-Fine : (s : List ℕ) (n : ℕ) → length s < 2 ^ 15 → (k : ℕ) × (prep_string s n ≡ ok k)
unfolding prep_string
short-Fine s n h = (n + 2 + length s, rw (le→ltb 32767 (length s) (omega (arith, h))) refl)

count-Fine : (l n : ℕ) → l < 2 ^ 31 → prep_array_length (pos l) n ≡ ok (n + 4)
unfolding prep_array_length
count-Fine l n h = rw (le→ltb 2147483647 l (omega (arith, h))) refl

strings-Fine :
    (ss : List (List ℕ)) (n : ℕ)
    → All (λ s. length s < 2 ^ 15) ss
    → (k : ℕ) × (prep_strings ss n ≡ ok k)
unfolding prep_strings
strings-Fine [] n h = (n, refl)
strings-Fine (s ∷ ss) n h =
    let (k, e) = short-Fine s n h.0 in let (l, f) = strings-Fine ss k h.1 in (l, rw e f)

pub IsSayable-Fine : (p : Put) → IsSayable p → Fine p
unfolding prep_put
IsSayable-Fine (Put.array_length (pos l)) h n = (n + 4, count-Fine l n (omega (arith, h)))
IsSayable-Fine (Put.array_length (negsuc l)) h n = absurd h
IsSayable-Fine (Put.bytes none) h n = (n + 4, refl)
IsSayable-Fine (Put.bytes (some bs)) h n = raw_bytes-Fine bs _ h
IsSayable-Fine (Put.varint_bytes none) h n = (_, refl)
IsSayable-Fine (Put.varint_bytes (some bs)) h n = raw_bytes-Fine bs _ h
IsSayable-Fine (Put.compact_bytes bs) h n = raw_bytes-Fine bs _ h
IsSayable-Fine (Put.raw_bytes bs) h n = raw_bytes-Fine bs _ h
IsSayable-Fine (Put.compact_string bs) h n = raw_bytes-Fine bs _ h
IsSayable-Fine (Put.nullable_compact_string none) h n = (_, refl)
IsSayable-Fine (Put.nullable_compact_string (some bs)) h n = raw_bytes-Fine bs _ h
IsSayable-Fine (Put.string bs) h n = short-Fine bs n h
IsSayable-Fine (Put.nullable_string none) h n = (n + 2, refl)
IsSayable-Fine (Put.nullable_string (some bs)) h n = short-Fine bs n h
IsSayable-Fine (Put.string_array ss) h n =
    let (k, e) = strings-Fine ss (n + 4) h.1 in (k, rw (count-Fine (length ss) n h.0) e)
IsSayable-Fine (Put.compact_int32_array none) h n = absurd h
IsSayable-Fine (Put.compact_int32_array (some xs)) h n = (_, refl)
IsSayable-Fine (Put.nullable_compact_int32_array none) h n = (_, refl)
IsSayable-Fine (Put.nullable_compact_int32_array (some xs)) h n = (_, refl)
IsSayable-Fine (Put.int32_array xs) h n =
    (n + 4 + 4 * length xs, rw (count-Fine (length xs) n h.0) refl)
IsSayable-Fine (Put.int64_array xs) h n =
    (n + 4 + 8 * length xs, rw (count-Fine (length xs) n h.0) refl)
IsSayable-Fine (Put.int8 z) h n = (_, refl)
IsSayable-Fine (Put.int16 z) h n = (_, refl)
IsSayable-Fine (Put.int32 z) h n = (_, refl)
IsSayable-Fine (Put.int64 z) h n = (_, refl)
IsSayable-Fine (Put.varint z) h n = (_, refl)
IsSayable-Fine (Put.uvarint x) h n = (_, refl)
IsSayable-Fine (Put.float64 x) h n = (_, refl)
IsSayable-Fine (Put.compact_array_length z) h n = (_, refl)
IsSayable-Fine (Put.bool b) h n = (_, refl)
IsSayable-Fine Put.empty_tagged_field_array h n = (_, refl)

encode-put_bytes :
    (max : ℕ) (p : Put)
    → IsSayable p
    → length (put_bytes p) ≤ max
    → encode max (put p end) ≡ ok (put_bytes p)
unfolding prep encoding
encode-put_bytes max p h l =
    let (k, e) = IsSayable-Fine p h 0 in
    encode-encoding max (put p end) tt
    ∙ rw (e, append-nil (put_bytes p), le→ltb max (length (put_bytes p)) l) refl

-- A value that a method of packetEncoder is given, of its Go type and of a size that it accepts, is
-- written by the two passes, if it is not too large for a request. The matching method of packetDecoder
-- reads it back, wherever the bytes stand and whatever follows them, and stops right behind them; an
-- array of strings or of plain numbers that is empty comes back as nil. A plain array length is up to
-- 131070, and at least as many bytes must follow it; the two array lengths are not those of a nil
-- array, and putCompactInt32Array is not given a nil array, which it refuses.
pub run-encode :
    (max : ℕ) (p : Put) (before rest : List ℕ) (st : List Frame)
    → IsSayable p
    → HasRoom p rest
    → length (put_bytes p) ≤ max
    → (bs : List ℕ) × (encode max (put p end) ≡ ok bs)
      × (run (reader p) (here before (bs ++ rest) st)
          ≡ (here (before ++ bs) rest st, Monad.ok (value p)))
run-encode max p before rest st h r l =
    (put_bytes p, encode-put_bytes max p h l, run-put p h before rest st r)
