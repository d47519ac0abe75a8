-- ===== src/Wire/RoundTrip/Arrays.antt =====
-- Strings and arrays, read back.
use sarama.Base.{
  ℕ, suc, ◌+◌, ◌*◌, ◌^◌, ◌≤◌, ◌<◌, ◌≡◌, refl, ◌∙◌, subst, List, [], ◌∷◌, ◌++◌, length, All,
  append-nil, append_assoc, ◌==◌, le→ltb, suc-eqb-zero, add_one-eqb-zero, arith, if◌then◌else◌,
  Option, none, some,
}
use sarama.Base.Int.{ℤ, pos, signed, unsigned, Fits, minus_one, unsigned-lt, signed-unsigned}
use sarama.Wire.Bytes.{be, un_be, length-be, un_be-be}
use sarama.Wire.Varint.{put_uvarint}
use sarama.Wire.Decode.Monad.{ok, M, ◌>>=◌, pure, fixed, unchecked, remaining}
use sarama.Wire.Decode.Primitives.{get_uvarint, int_pred}
use sarama.Wire.Decode.Collections.{
  get_string, get_nullable_string, get_compact_int32_array, get_int32_array, get_int64_array,
  get_string_array, check_string_length, get_string_length, string_of, or_empty, get_numbers,
  compact_array_of, sized_array, get_strings,
}
use sarama.Wire.Encode.Sizes.{length-all_bytes}
use sarama.Wire.Encode.Encoding.{all_bytes, int16_bytes, int32_bytes, int64_bytes, string_bytes}
use sarama.Wire.RoundTrip.Puts.{int16-Reads, string_of-Reads, compact_length_lem}
use sarama.Wire.RoundTrip.Reads.{
  Fits-pos, here, Reads, fixed-Reads, unchecked-Reads, uvarint-Reads, pure-Reads, bind-Reads,
  map-Reads, rest_length,
}

-- A string's length is accepted where the string follows.
string_length-Reads :
    {A : Type 0} (k : ℤ → M A) (bs : List ℕ) (v : A)
    → length bs < 2 ^ 15
    → Reads (k (pos (length bs))) bs v
    → Reads (get_string_length >>= k) (string_bytes bs) v
unfolding get_string_length check_string_length
string_length-Reads k bs v h r before rest st =
    let head = int16_bytes (pos (length bs)) in
    rw
      (
        append_assoc head bs rest,
        int16-Reads (pos (length bs)) h before (bs ++ rest) st,
        le→ltb (remaining (here (before ++ head) (bs ++ rest) st)) (length bs)
            (omega (arith, rest_length (before ++ head) bs rest)),
        r (before ++ head) rest st,
      )
      (rw (append_assoc before head bs))

pub nullable_string-Reads :
    (bs : List ℕ) → length bs < 2 ^ 15 → Reads get_nullable_string (string_bytes bs) (some bs)
unfolding get_nullable_string
nullable_string-Reads bs h = string_length-Reads string_of bs (some bs) h (string_of-Reads bs)

pub string-Reads : (bs : List ℕ) → length bs < 2 ^ 15 → Reads get_string (string_bytes bs) bs
unfolding get_string or_empty
string-Reads bs h =
    string_length-Reads (λ n. string_of n >>= λ s. pure (or_empty s)) bs bs h
      (map-Reads (string_of (pos (length bs))) or_empty bs (some bs) (string_of-Reads bs))

pub null_string-Reads : Reads get_nullable_string (int16_bytes minus_one) none
unfolding get_nullable_string get_string_length check_string_length string_of
null_string-Reads before rest st = rw (int16-Reads minus_one (omega arith) before rest st)

abbrev pub nil_if_empty {ℓ} : {A : Type ℓ} → List A → Option (List A)
nil_if_empty [] = none
nil_if_empty (x ∷ xs) = some (x ∷ xs)

-- The elements of an array, one after the other.
module _ (size half : ℕ) (fits : 256 ^ size ≡ 2 * half) where
  abbrev element : ℤ → List ℕ
  element z = be size (unsigned half z)

  element_lem : (z : ℤ) → Fits half z → signed half (un_be 0 (element z)) ≡ z
  element_lem z h =
      rw (un_be-be size (unsigned half z) (rw fits (unsigned-lt half z (Fits-pos half z h))))
        (signed-unsigned half z h)

  pub get_numbers-Reads :
      (xs : List ℤ)
      → All (Fits half) xs
      → Reads (get_numbers size (signed half) (length xs)) (all_bytes element xs) xs
  unfolding get_numbers all_bytes
  get_numbers-Reads [] h = pure-Reads []
  get_numbers-Reads (x ∷ xs) (hx, hxs) =
      let more = get_numbers size (signed half) (length xs) in
      bind-Reads (unchecked size) (λ bs. more >>= λ r. pure (signed half (un_be 0 bs) ∷ r))
        (element x) (all_bytes element xs) (element x) (x ∷ xs)
        (unchecked-Reads size (element x) (length-be size _))
        (subst
          (λ (y : ℤ).
            Reads (more >>= λ r. pure (signed half (un_be 0 (element x)) ∷ r))
              (all_bytes element xs) (y ∷ xs))
          (element_lem x hx)
          (map-Reads more (λ r. signed half (un_be 0 (element x)) ∷ r) (all_bytes element xs) xs
            (get_numbers-Reads xs hxs)))

  -- An array with its length before it; the reader gives nil for an empty one.
  sized_array-Reads :
      (xs : List ℤ)
      → All (Fits half) xs
      → Reads (sized_array size (signed half) (length xs)) (all_bytes element xs) (nil_if_empty xs)
  unfolding sized_array
  sized_array-Reads xs h before rest st =
      let room : size * length xs ≤ remaining (here before (all_bytes element xs ++ rest) st) =
        omega (
          arith,
          rest_length before (all_bytes element xs) rest,
          length-all_bytes element size (λ z. length-be size _) xs,
        ) in
      rw (le→ltb _ _ room) (go xs h)
    where
      go :
          (ys : List ℤ)
          → All (Fits half) ys
          → (if length ys == 0
              then (here before (all_bytes element ys ++ rest) st, ok none)
              else (get_numbers size (signed half) (length ys) >>= λ r. pure (some r))
                  (here before (all_bytes element ys ++ rest) st))
            ≡ (here (before ++ all_bytes element ys) rest st, ok (nil_if_empty ys))
      go [] hy = unfold all_bytes in rw append-nil
      go (y ∷ ys) hy = rw (suc-eqb-zero (length ys)) (
          map-Reads (get_numbers size (signed half) (suc (length ys))) some
            (all_bytes element (y ∷ ys)) (y ∷ ys) (get_numbers-Reads (y ∷ ys) hy) before rest st)

get_strings-Reads :
    (ss : List (List ℕ))
    → All (λ s. length s < 2 ^ 15) ss
    → Reads (get_strings (length ss)) (all_bytes string_bytes ss) ss
unfolding get_strings all_bytes
get_strings-Reads [] h = pure-Reads []
get_strings-Reads (s ∷ ss) (hs, hss) =
    bind-Reads get_string (λ t. get_strings (length ss) >>= λ ts. pure (t ∷ ts)) (string_bytes s)
      (all_bytes string_bytes ss) s (s ∷ ss) (string-Reads s hs)
      (map-Reads (get_strings (length ss)) (λ ts. s ∷ ts) (all_bytes string_bytes ss) ss
        (get_strings-Reads ss hss))

-- The four bytes of a length, and the reading that goes on with it.
counted-Reads :
    {A : Type 0} (f : ℕ → M A) (n : ℕ) (bs : List ℕ) (v : A)
    → n < 2 ^ 32
    → Reads (f n) bs v
    → Reads (fixed 4 >>= λ cs. f (un_be 0 cs)) (int32_bytes (pos n) ++ bs) v
counted-Reads f n bs v h r =
    let count : un_be 0 (int32_bytes (pos n)) ≡ n = un_be-be 4 _ (omega arith) ∙ omega arith in
    bind-Reads (fixed 4) (λ cs. f (un_be 0 cs)) (int32_bytes (pos n)) bs (int32_bytes (pos n)) v
      (fixed-Reads 4 (int32_bytes (pos n)) (length-be 4 _)) (rw count r)

pub int32_array-Reads :
    (xs : List ℤ)
    → length xs < 2 ^ 32
    → All (Fits (2 ^ 31)) xs
    → Reads get_int32_array
        (int32_bytes (pos (length xs)) ++ all_bytes int32_bytes xs)
        (nil_if_empty xs)
unfolding get_int32_array
int32_array-Reads xs l h =
    counted-Reads (sized_array 4 (signed (2 ^ 31))) (length xs) (all_bytes int32_bytes xs) _ l
      (sized_array-Reads 4 (2 ^ 31) refl xs h)

pub int64_array-Reads :
    (xs : List ℤ)
    → length xs < 2 ^ 32
    → All (Fits (2 ^ 63)) xs
    → Reads get_int64_array
        (int32_bytes (pos (length xs)) ++ all_bytes int64_bytes xs)
        (nil_if_empty xs)
unfolding get_int64_array
int64_array-Reads xs l h =
    counted-Reads (sized_array 8 (signed (2 ^ 63))) (length xs) (all_bytes int64_bytes xs) _ l
      (sized_array-Reads 8 (2 ^ 63) refl xs h)

compact_array-Reads :
    (xs : List ℤ)
    → All (Fits (2 ^ 31)) xs
    → Reads (compact_array_of (pos (length xs))) (all_bytes int32_bytes xs) (some xs)
unfolding compact_array_of
compact_array-Reads xs h =
    map-Reads (get_numbers 4 (signed (2 ^ 31)) (length xs)) some (all_bytes int32_bytes xs) xs
      (get_numbers-Reads 4 (2 ^ 31) refl xs h)

pub compact_int32_array-Reads :
    (xs : List ℤ)
    → length xs < 2 ^ 63
    → All (Fits (2 ^ 31)) xs
    → Reads get_compact_int32_array
        (put_uvarint (length xs + 1) ++ all_bytes int32_bytes xs)
        (some xs)
unfolding get_compact_int32_array
compact_int32_array-Reads xs l h =
    let f : ℕ → M (Option (List ℤ)) =
      λ n. if n == 0 then pure none else compact_array_of (int_pred n) in
    let body : Reads (f (length xs + 1)) (all_bytes int32_bytes xs) (some xs) =
      rw (add_one-eqb-zero (length xs), (compact_length_lem (length xs) l).1)
        (compact_array-Reads xs h) in
    bind-Reads get_uvarint f (put_uvarint (length xs + 1)) (all_bytes int32_bytes xs)
      (length xs + 1) (some xs) (uvarint-Reads (length xs + 1) (omega arith)) body

pub null_compact_int32_array-Reads : Reads get_compact_int32_array (put_uvarint 0) none
unfolding get_compact_int32_array
null_compact_int32_array-Reads before rest st = rw (uvarint-Reads 0 (omega arith) before rest st)

abbrev strings_of : ℕ → M (Option (List (List ℕ)))
strings_of n = if n == 0 then pure none else (get_strings n >>= λ xs. pure (some xs))

strings_of-Reads :
    (ss : List (List ℕ))
    → All (λ s. length s < 2 ^ 15) ss
    → Reads (strings_of (length ss)) (all_bytes string_bytes ss) (nil_if_empty ss)
strings_of-Reads [] h = unfold all_bytes in pure-Reads none
strings_of-Reads (s ∷ ss) h = rw (suc-eqb-zero (length ss)) (
    map-Reads (get_strings (suc (length ss))) some (all_bytes string_bytes (s ∷ ss)) (s ∷ ss)
      (get_strings-Reads (s ∷ ss) h))

pub string_array-Reads :
    (ss : List (List ℕ))
    → length ss < 2 ^ 32
    → All (λ s. length s < 2 ^ 15) ss
    → Reads get_string_array
        (int32_bytes (pos (length ss)) ++ all_bytes string_bytes ss)
        (nil_if_empty ss)
unfolding get_string_array
string_array-Reads ss l h =
    counted-Reads strings_of (length ss) (all_bytes string_bytes ss) _ l (strings_of-Reads ss h)
