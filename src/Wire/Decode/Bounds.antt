-- ===== src/Wire/Decode/Bounds.antt =====
-- No method of the reader leaves its bytes, and all but three never panic.
use sarama.Base.{
  ℕ, zero, suc, ◌+◌, ◌*◌, ◌≤◌, ◌≡◌, List, arith, ltb, ◌==◌, Option, inl, inr, Bool-cases,
}
use sarama.Base.Int.{ℤ, pos, negsuc}
use sarama.Wire.Decode.Monad.{Decoder, M, ◌>>=◌, pure, fixed, unchecked, remaining, advance}
use sarama.Wire.Decode.Primitives.{get_int16, get_int32, get_varint, check_length, skip_tags}
use sarama.Wire.Decode.Collections.{
  get_string, get_nullable_string, some_bytes, check_string_length, get_string_length, string_of,
  compact_string_of, get_numbers, or_empty, compact_array_of, sized_array, get_strings,
}
use sarama.Wire.Decode.Fields.{
  Field, length_of, varint_length_of, crc32_of, put_frame, check_remaining, reserve, push,
}
use sarama.Wire.Decode.Sound.{
  InBounds, Ends, Sound, bind-Sound, pure-Sound, fail-Sound, if_Sound, fixed-Sound, unchecked-Sound,
  get_varint-Sound, get_uvarint-Sound, get_raw_bytes-Sound, next-Ends, Ends-from, bind_assoc,
}

abbrev pub Any : Type 0
Any = Unit {0}

pub fixed_number-Sound :
    {A : Type 0} (P : Type 0) (n : ℕ) (f : List ℕ → A) → Sound P (fixed n >>= λ bs. pure (f bs))
fixed_number-Sound P n f = bind-Sound P _ _ (fixed-Sound P n) (λ bs. pure-Sound P _)

pub check_length-Sound : (P : Type 0) (n : ℤ) → Sound P (check_length n)
unfolding check_length
check_length-Sound P n d b = ground arith

pub skip_tags-Sound : (P : Type 0) (n : ℕ) → Sound P (skip_tags n)
unfolding skip_tags
skip_tags-Sound P zero = pure-Sound P _
skip_tags-Sound P (suc n) = bind-Sound P _ _ (get_uvarint-Sound P) λ tag.
    bind-Sound P _ _ (get_uvarint-Sound P)
      λ size. bind-Sound P _ _ (get_raw_bytes-Sound P _) λ bytes. skip_tags-Sound P n

pub some_bytes-Sound : (P : Type 0) (n : ℤ) → Sound P (some_bytes n)
unfolding some_bytes
some_bytes-Sound P n =
    if_Sound P _ _ _ (pure-Sound P _)
      (bind-Sound P _ _ (get_raw_bytes-Sound P n) λ bs. pure-Sound P _)

pub get_int16-Sound : (P : Type 0) → Sound P get_int16
unfolding get_int16
get_int16-Sound P = fixed_number-Sound P 2 _

pub get_int32-Sound : (P : Type 0) → Sound P get_int32
unfolding get_int32
get_int32-Sound P = fixed_number-Sound P 4 _

-- The check makes the cut that follows it safe.
pub checked_string-Sound : (P : Type 0) (n : ℤ) → Sound P (check_string_length n >>= string_of)
unfolding check_string_length string_of unchecked
checked_string-Sound P (pos n) d b = ground arith
checked_string-Sound P (negsuc n) d b = ground arith

pub string-Sound : (P : Type 0) → Sound P (get_string_length >>= string_of)
unfolding get_string_length
string-Sound P d b =
    rw (bind_assoc get_int16 check_string_length string_of d)
      (bind-Sound P _ _ (get_int16-Sound P) (checked_string-Sound P) d b)

pub get_nullable_string-Sound : (P : Type 0) → Sound P get_nullable_string
unfolding get_nullable_string
get_nullable_string-Sound P = string-Sound P

pub get_string-Sound : (P : Type 0) → Sound P get_string
unfolding get_string
get_string-Sound P d b =
    let k : Option (List ℕ) → M (List ℕ) = λ s. pure (or_empty s) in
    rw (← bind_assoc get_string_length string_of k d)
      (bind-Sound P (get_string_length >>= string_of) k (string-Sound P) (λ s. pure-Sound P _) d b)

pub get_strings-Sound : (P : Type 0) (n : ℕ) → Sound P (get_strings n)
unfolding get_strings
get_strings-Sound P zero = pure-Sound P _
get_strings-Sound P (suc n) =
    bind-Sound P _ _ (get_string-Sound P)
      λ s. bind-Sound P _ _ (get_strings-Sound P n) λ rest. pure-Sound P _

-- Enough bytes are left for `n` numbers.
pub get_numbers-Ends :
    (P : Type 0) (size : ℕ) (convert : ℕ → ℤ) (n : ℕ) (d : Decoder)
    → InBounds d
    → size * n ≤ remaining d
    → Ends P d (get_numbers size convert n d)
unfolding get_numbers
get_numbers-Ends P size convert zero d b h = pure-Sound P _ d b
get_numbers-Ends P size convert (suc n) d b h =
    let d' : Decoder = record d { off = d.off + size } in
    let first : unchecked size d ≡ advance size d = unfold unchecked in ground arith in
    let later : Ends P d' (get_numbers size convert n d') =
      get_numbers-Ends P size convert n d' (omega arith) (omega arith) in
    rw first (
      Ends-from P d d' _ (ground arith)
        (next-Ends P d' (get_numbers size convert n d') _ later (λ rest. pure-Sound P _)))

pub get_numbers-Sound :
    (size : ℕ) (convert : ℕ → ℤ) (n : ℕ) → Sound Any (get_numbers size convert n)
unfolding get_numbers
get_numbers-Sound size convert zero = pure-Sound Any _
get_numbers-Sound size convert (suc n) =
    bind-Sound Any _ _ (unchecked-Sound size)
      λ bs. bind-Sound Any _ _ (get_numbers-Sound size convert n) λ rest. pure-Sound Any _

pub sized_array-Sound :
    (P : Type 0) (size : ℕ) (convert : ℕ → ℤ) (n : ℕ) → Sound P (sized_array size convert n)
unfolding sized_array
sized_array-Sound P size convert n d b = elim (Bool-cases (ltb (remaining d) (size * n))) [
  | inl cut ↦ rw cut (ground arith)
  | inr fits ↦ elim (Bool-cases (n == 0)) [
    | inl e ↦ rw (fits, e) (ground arith)
    | inr e ↦
        rw (fits, e)
          (next-Ends P d _ _ (get_numbers-Ends P size convert n d b (ground arith))
            (λ xs. pure-Sound P _))
  ]
]

pub compact_array_of-Sound : (n : ℤ) → Sound Any (compact_array_of n)
unfolding compact_array_of
compact_array_of-Sound (pos n) = bind-Sound Any _ _ (get_numbers-Sound _ _ n) λ xs. pure-Sound Any _
compact_array_of-Sound (negsuc n) = λ d b. ground arith

pub string_of-Sound : (n : ℤ) → Sound Any (string_of n)
unfolding string_of
string_of-Sound (pos n) = bind-Sound Any _ _ (unchecked-Sound n) λ bs. pure-Sound Any _
string_of-Sound (negsuc n) = pure-Sound Any _

pub compact_string_of-Sound : (n : ℤ) → Sound Any (compact_string_of n)
unfolding compact_string_of
compact_string_of-Sound (pos n) = unchecked-Sound n
compact_string_of-Sound (negsuc n) = fail-Sound Any _

pub push-Sound : (P : Type 0) (f : Field) → Sound P (push f)
unfolding push check_remaining put_frame reserve
push-Sound P length_of d b =
    next-Ends P d (get_int32 d) _ (get_int32-Sound P d b) (λ n e c. ground arith)
push-Sound P varint_length_of d b =
    next-Ends P d (get_varint d) _ (get_varint-Sound P d b) (λ n e c. ground arith)
push-Sound P (crc32_of p) d b = ground arith
