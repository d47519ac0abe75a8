-- ===== src/Wire/Encode/Sizes.antt =====
-- What the first pass counts.
use sarama.Base.{
  ℕ, ◌+◌, ◌*◌, ◌^◌, ◌≡◌, refl, true, false, List, [], ◌∷◌, ◌++◌, length, length-append, arith, none,
  some,
}
use sarama.Base.Int.{ℤ, pos, unsigned, minus_one}
use sarama.Wire.Bytes.{be, length-be}
use sarama.Wire.Varint.{put_uvarint}
use sarama.Wire.Encode.Packet.{Put, Outcome, ok, err, ◌>>=◌}
use sarama.Wire.Encode.Prep.{
  prep_put, prep_raw_bytes, prep_string, prep_strings, prep_array_length, compact_length,
}
use sarama.Wire.Encode.Encoding.{all_bytes, put_bytes, int32_bytes, int64_bytes, string_bytes}
use sarama.Wire.Encode.Writes.{IsWritable}

pub length-all_bytes :
    (f : ℤ → List ℕ) (k : ℕ)
    → ((z : ℤ) → length (f z) ≡ k)
    → (xs : List ℤ) → length (all_bytes f xs) ≡ k * length xs
unfolding all_bytes
length-all_bytes f k h [] = omega arith
length-all_bytes f k h (x ∷ xs) =
    omega (arith, length-append (f x) (all_bytes f xs), length-all_bytes f k h xs, h x)

length-int32s : (xs : List ℤ) → length (all_bytes int32_bytes xs) ≡ 4 * length xs
length-int32s = length-all_bytes int32_bytes 4 (λ z. length-be 4 _)

length-int64s : (xs : List ℤ) → length (all_bytes int64_bytes xs) ≡ 8 * length xs
length-int64s = length-all_bytes int64_bytes 8 (λ z. length-be 8 _)

length-prefixed : (k x : ℕ) (bs : List ℕ) → length (be k x ++ bs) ≡ k + length bs
length-prefixed k x bs = omega (arith, length-append (be k x) bs, length-be k x)

prep_string_lem :
    (bs : List ℕ) (n m : ℕ) → prep_string bs n ≡ ok m → m ≡ n + length (string_bytes bs)
unfolding prep_string
prep_string_lem bs n m e = ground (arith, length-prefixed 2 (unsigned 0x8000 (pos (length bs))) bs)

prep_raw_bytes_lem : (bs : List ℕ) (n m : ℕ) → prep_raw_bytes bs n ≡ ok m → m ≡ n + length bs
unfolding prep_raw_bytes
prep_raw_bytes_lem bs n m e = ground arith

prep_array_length_lem : (z : ℤ) (n m : ℕ) → prep_array_length z n ≡ ok m → m ≡ n + 4
unfolding prep_array_length
prep_array_length_lem z n m e = ground arith

pub >>=-eq-ok {ℓ κ} :
    {A : Type ℓ} {B : Type κ} (o : Outcome A) (f : A → Outcome B) {b : B}
    → (o >>= f) ≡ ok b
    → (a : A) × (o ≡ ok a) × (f a ≡ ok b)
>>=-eq-ok (ok a) f h = (a, refl, h)
>>=-eq-ok (err e) f h = cc

prep_strings_lem :
    (ss : List (List ℕ)) (n m : ℕ)
    → prep_strings ss n ≡ ok m
    → m ≡ n + length (all_bytes string_bytes ss)
unfolding prep_strings all_bytes
prep_strings_lem [] n m e = ground arith
prep_strings_lem (s ∷ ss) n m e =
    let (k, first, later) = >>=-eq-ok (prep_string s n) (prep_strings ss) e in
    omega (
      arith,
      length-append (string_bytes s) (all_bytes string_bytes ss),
      prep_string_lem s n k first,
      prep_strings_lem ss k m later,
    )

uvarint_prefixed :
    (x : ℕ) (bs : List ℕ) → length (put_uvarint x ++ bs) ≡ length (put_uvarint x) + length bs
uvarint_prefixed x bs = length-append (put_uvarint x) bs

prep_counted_lem :
    (size : ℕ) (count : ℤ) (bs : List ℕ) (n m : ℕ)
    → (prep_array_length count n >>= λ k. ok (k + size)) ≡ ok m
    → length bs ≡ size
    → m ≡ n + length (int32_bytes count ++ bs)
prep_counted_lem size count bs n m e l =
    let (k, first, later) = >>=-eq-ok (prep_array_length count n) _ e in
    ground
      (arith, prep_array_length_lem count n k first, length-prefixed 4 (unsigned (2 ^ 31) count) bs)

prep_string_array_lem :
    (ss : List (List ℕ)) (n m : ℕ)
    → (prep_array_length (pos (length ss)) n >>= prep_strings ss) ≡ ok m
    → m ≡ n + length (int32_bytes (pos (length ss)) ++ all_bytes string_bytes ss)
prep_string_array_lem ss n m e =
    let (k, first, later) = >>=-eq-ok (prep_array_length (pos (length ss)) n) _ e in
    omega (
      arith,
      prep_array_length_lem (pos (length ss)) n k first,
      prep_strings_lem ss k m later,
      length-prefixed 4 (unsigned (2 ^ 31) (pos (length ss))) (all_bytes string_bytes ss),
    )

one_byte : length (put_uvarint 0) ≡ 1
unfolding put_uvarint
one_byte = refl

-- Where the first pass accepts a call, it counts the bytes of the format, and they can be written.
pub prep_put_lem :
    (p : Put) (n m : ℕ) → prep_put p n ≡ ok m → (m ≡ n + length (put_bytes p)) × IsWritable p
unfolding put_bytes prep_put
prep_put_lem (Put.int8 z) n m e = ground (arith, length-be 1 (unsigned 0x80 z))
prep_put_lem (Put.int16 z) n m e = ground (arith, length-be 2 (unsigned 0x8000 z))
prep_put_lem (Put.int32 z) n m e = ground (arith, length-be 4 (unsigned (2 ^ 31) z))
prep_put_lem (Put.int64 z) n m e = ground (arith, length-be 8 (unsigned (2 ^ 63) z))
prep_put_lem (Put.float64 x) n m e = ground (arith, length-be 8 x)
prep_put_lem (Put.bool true) n m e = ground (arith, length-be 1 1)
prep_put_lem (Put.bool false) n m e = ground (arith, length-be 1 0)
prep_put_lem (Put.array_length z) n m e =
    (omega (arith, prep_array_length_lem z n m e, length-be 4 (unsigned (2 ^ 31) z)), tt)
prep_put_lem (Put.bytes none) n m e = ground (arith, length-be 4 (unsigned (2 ^ 31) minus_one))
prep_put_lem (Put.bytes (some bs)) n m e = (
  omega (
    arith,
    prep_raw_bytes_lem bs (n + 4) m e,
    length-prefixed 4 (unsigned (2 ^ 31) (pos (length bs))) bs,
  ),
  tt,
)
prep_put_lem (Put.varint_bytes none) n m e = ground arith
prep_put_lem (Put.varint_bytes (some bs)) n m e =
    (omega (arith, prep_raw_bytes_lem bs _ m e, uvarint_prefixed (2 * length bs) bs), tt)
prep_put_lem (Put.compact_bytes bs) n m e =
    (omega (arith, prep_raw_bytes_lem bs _ m e, uvarint_prefixed (length bs + 1) bs), tt)
prep_put_lem (Put.compact_string bs) n m e = (
  omega
      (arith, prep_raw_bytes_lem bs _ m e, uvarint_prefixed (compact_length (pos (length bs))) bs),
  tt,
)
prep_put_lem (Put.nullable_compact_string none) n m e = ground (arith, one_byte)
prep_put_lem (Put.nullable_compact_string (some bs)) n m e = (
  omega
      (arith, prep_raw_bytes_lem bs _ m e, uvarint_prefixed (compact_length (pos (length bs))) bs),
  tt,
)
prep_put_lem (Put.raw_bytes bs) n m e = (prep_raw_bytes_lem bs n m e, tt)
prep_put_lem (Put.string bs) n m e = (prep_string_lem bs n m e, tt)
prep_put_lem (Put.nullable_string none) n m e =
    ground (arith, length-be 2 (unsigned 0x8000 minus_one))
prep_put_lem (Put.nullable_string (some bs)) n m e = (prep_string_lem bs n m e, tt)
prep_put_lem (Put.string_array ss) n m e = (prep_string_array_lem ss n m e, tt)
prep_put_lem (Put.compact_int32_array none) n m e = cc
prep_put_lem (Put.compact_int32_array (some xs)) n m e =
    ground (arith, uvarint_prefixed (length xs + 1) (all_bytes int32_bytes xs), length-int32s xs)
prep_put_lem (Put.nullable_compact_int32_array none) n m e = ground arith
prep_put_lem (Put.nullable_compact_int32_array (some xs)) n m e =
    ground (arith, uvarint_prefixed (length xs + 1) (all_bytes int32_bytes xs), length-int32s xs)
prep_put_lem (Put.int32_array xs) n m e =
    (prep_counted_lem _ (pos (length xs)) _ n m e (length-int32s xs), tt)
prep_put_lem (Put.int64_array xs) n m e =
    (prep_counted_lem _ (pos (length xs)) _ n m e (length-int64s xs), tt)
prep_put_lem _ n m e = ground arith
