-- ===== src/Wire/Encode/Writes.antt =====
-- What it is for the second pass to write given bytes at its offset, and the rules for it.
use sarama.Base.{
  drop-drop, ℕ, zero, suc, ◌+◌, ◌≤◌, ◌≡◌, refl, sym, ap, true, false, List, [], ◌∷◌, ◌++◌, length,
  drop, length-append, length-drop, take-append, append_assoc, append-nil, arith, le→ltb, none,
  some,
}
use sarama.Base.Int.{ℤ, pos}
use sarama.Wire.Bytes.{be}
use sarama.Wire.Encode.Packet.{PushField, Put, Outcome, ok}
use sarama.Wire.Encode.Real.{
  RealEncoder, Step, ◌>=>◌, patch, write, copy, put_raw_bytes, put_each, real_put, put_int32,
  put_int64, put_string,
}
use sarama.Wire.Encode.Encoding.{
  all_bytes, put_bytes, int32_bytes, int64_bytes, string_bytes, int16_bytes,
}

-- The encoder that has written `before` and has the bytes of `rest` to overwrite.
abbrev pub at : List ℕ → List ℕ → List (ℕ × PushField) → RealEncoder
at before rest st = record { raw = before ++ rest; off = length before; stack = st }

abbrev pub Writes : Step → List ℕ → Type 0
Writes m bs =
    (before rest : List ℕ) (st : List (ℕ × PushField))
    → length bs ≤ length rest
    → m (at before rest st) ≡ ok (at (before ++ bs) (drop (length bs) rest) st)

pub drop-append_add : (k n : ℕ) (xs ys : List ℕ) → k ≡ length xs + n → drop k (xs ++ ys) ≡ drop n ys
drop-append_add k n [] ys e = let e' : k ≡ n = omega arith in rw e'
drop-append_add zero n (x ∷ xs) ys e = absurd (omega arith)
drop-append_add (suc k) n (x ∷ xs) ys e = drop-append_add k n xs ys (omega arith)

-- A patch over `old` in the midst of the bytes.
pub patch_lem :
    (before old bs rest : List ℕ) (start : ℕ)
    → start ≡ length before
    → length old ≡ length bs
    → patch start bs (before ++ (old ++ rest)) ≡ ok (before ++ (bs ++ rest))
unfolding patch
patch_lem before old bs rest start e l = rw (
  le→ltb (length (before ++ (old ++ rest))) (start + length bs)
      (omega (arith, length-append before (old ++ rest), length-append old rest)),
  take-append start before (old ++ rest) e,
  drop-append_add (start + length bs) (length bs) before (old ++ rest) (omega arith),
  drop-append_add (length bs) 0 old rest (omega arith),
)

pub same_encoder :
    (raw raw' : List ℕ) (off off' : ℕ) (st : List (ℕ × PushField))
    → raw ≡ raw'
    → off ≡ off'
    → ◌≡◌ {A = Outcome RealEncoder}
        (ok (record { raw = raw; off = off; stack = st }))
        (ok (record { raw = raw'; off = off'; stack = st }))
same_encoder raw raw' off off' st p q = cc

pub write-Writes : (bs : List ℕ) → Writes (write bs) bs
unfolding write patch
write-Writes bs before rest st h =
    rw
      (
        le→ltb (length (before ++ rest)) (length before + length bs)
            (omega (arith, length-append before rest)),
        take-append (length before) before rest refl,
        drop-append_add (length before + length bs) (length bs) before rest refl,
      )
      (same_encoder _ _ _ _ st (sym (append_assoc before bs (drop (length bs) rest)))
        (sym (length-append before bs)))

copy_lem :
    (dst src : List ℕ) → length src ≤ length dst → copy dst src ≡ src ++ drop (length src) dst
unfolding copy
copy_lem [] [] h = refl
copy_lem [] (s ∷ src) h = absurd (omega arith)
copy_lem (d ∷ dst) [] h = refl
copy_lem (d ∷ dst) (s ∷ src) h = ap (λ (t : List ℕ). s ∷ t) (copy_lem dst src (omega arith))

pub put_raw_bytes-Writes : (bs : List ℕ) → Writes (put_raw_bytes bs) bs
unfolding put_raw_bytes
put_raw_bytes-Writes bs before rest st h =
    rw
      (
        le→ltb (length (before ++ rest)) (length before) (omega (arith, length-append before rest)),
        take-append (length before) before rest refl,
        drop-append_add (length before) 0 before rest (omega arith),
        copy_lem rest bs h,
      )
      (same_encoder _ _ _ _ st (sym (append_assoc before bs (drop (length bs) rest)))
        (sym (length-append before bs)))

pub nothing-Writes : Writes (λ e. ok e) []
nothing-Writes before rest st h = rw append-nil

pub then-Writes :
    (m k : Step) (bs cs : List ℕ) → Writes m bs → Writes k cs → Writes (m >=> k) (bs ++ cs)
then-Writes m k bs cs hm hk before rest st h =
    rw
      (
        hm before rest st (omega (arith, length-append bs cs)),
        hk (before ++ bs) (drop (length bs) rest) st
            (omega (arith, length-append bs cs, length-drop (length bs) rest)),
      )
      (same_encoder _ _ _ _ st
        (rw (
          append_assoc before bs cs,
          drop-drop (length bs) (length cs) _ rest (length-append bs cs),
        ))
        (rw (append_assoc before bs cs)))

module _ {ℓ} {A : Type ℓ} (f : A → Step) (g : A → List ℕ) where
  pub put_each-Writes :
      (each : (x : A) → Writes (f x) (g x)) (xs : List A) → Writes (put_each f xs) (all_bytes g xs)
  unfolding put_each all_bytes
  put_each-Writes each [] = nothing-Writes
  put_each-Writes each (x ∷ xs) =
      then-Writes (f x) (put_each f xs) (g x) (all_bytes g xs) (each x) (put_each-Writes each xs)

-- Only a nil slice where none is allowed is not written.
abbrev pub IsWritable : Put → Type 0
IsWritable (Put.compact_int32_array none) = ⊥
IsWritable _ = Unit {0}

prefix-Writes : (bs cs : List ℕ) → Writes (write bs >=> put_raw_bytes cs) (bs ++ cs)
prefix-Writes bs cs =
    then-Writes (write bs) (put_raw_bytes cs) bs cs (write-Writes bs) (put_raw_bytes-Writes cs)

array-Writes {ℓ} :
    {A : Type ℓ} (f : A → Step) (g : A → List ℕ)
    → ((x : A) → Writes (f x) (g x))
    → (bs : List ℕ) (xs : List A) → Writes (write bs >=> put_each f xs) (bs ++ all_bytes g xs)
array-Writes f g each bs xs =
    then-Writes (write bs) (put_each f xs) bs (all_bytes g xs) (write-Writes bs)
      (put_each-Writes f g each xs)

int32s-Writes :
    (bs : List ℕ) (xs : List ℤ)
    → Writes (write bs >=> put_each put_int32 xs) (bs ++ all_bytes int32_bytes xs)
int32s-Writes = array-Writes put_int32 int32_bytes (λ z. write-Writes _)

string-Writes : (bs : List ℕ) → Writes (put_string bs) (string_bytes bs)
string-Writes bs = prefix-Writes (int16_bytes (pos (length bs))) bs

-- Each method of the second pass writes the bytes of the format.
pub real_put-Writes : (p : Put) → IsWritable p → Writes (real_put p) (put_bytes p)
unfolding real_put put_bytes be
real_put-Writes (Put.bytes (some bs)) w = prefix-Writes _ bs
real_put-Writes (Put.varint_bytes (some bs)) w = prefix-Writes _ bs
real_put-Writes (Put.compact_bytes bs) w = prefix-Writes _ bs
real_put-Writes (Put.compact_string bs) w = prefix-Writes _ bs
real_put-Writes (Put.nullable_compact_string (some bs)) w = prefix-Writes _ bs
real_put-Writes (Put.raw_bytes bs) w = put_raw_bytes-Writes bs
real_put-Writes (Put.string bs) w = string-Writes bs
real_put-Writes (Put.nullable_string (some bs)) w = string-Writes bs
real_put-Writes (Put.string_array ss) w = array-Writes put_string string_bytes string-Writes _ ss
real_put-Writes (Put.compact_int32_array none) w = absurd w
real_put-Writes (Put.compact_int32_array (some xs)) w = int32s-Writes _ xs
real_put-Writes (Put.nullable_compact_int32_array (some xs)) w = int32s-Writes _ xs
real_put-Writes (Put.int32_array xs) w = int32s-Writes _ xs
real_put-Writes (Put.int64_array xs) w =
    array-Writes put_int64 int64_bytes (λ z. write-Writes _) _ xs
real_put-Writes (Put.bool true) w = write-Writes _
real_put-Writes (Put.bool false) w = write-Writes _
real_put-Writes _ w = write-Writes _
