-- ===== src/Wire/RoundTrip/Reads.antt =====
-- What it is for a method of the reader to read given bytes as a value, and the rules for it.
use sarama.Base.{
  ℕ, ◌+◌, ◌*◌, ◌^◌, ◌<◌, ◌≡◌, refl, sym, ◌∙◌, List, [], ◌++◌, length, length-append, take-append,
  drop-append, append_assoc, append-nil, le→ltb, arith,
}
use sarama.Base.Int.{ℤ, pos, negsuc, signed, unsigned, Fits, signed-unsigned, unsigned-lt}
use sarama.Wire.Bytes.{be, un_be, length-be, un_be-be}
use sarama.Wire.Varint.{put_uvarint, uvarint-put_uvarint, zigzag, unzigzag-zigzag, zigzag-lt}
use sarama.Wire.Decode.Monad.{
  Decoder, Frame, Result, ok, M, ◌>>=◌, pure, fixed, unchecked, slice, remaining,
}
use sarama.Wire.Decode.Primitives.{get_varint, get_uvarint, get_raw_bytes, scanned}

-- The decoder that has read `before` and has `rest` to read.
abbrev pub here : List ℕ → List ℕ → List Frame → Decoder
here before rest st = record { raw = before ++ rest; off = length before; stack = st }

-- Wherever the bytes `bs` stand, and whatever follows them, `m` reads them as `v`.
abbrev pub Reads : {A : Type 0} → M A → List ℕ → A → Type 0
Reads m bs v =
    (before rest : List ℕ) (st : List Frame)
    → m (here before (bs ++ rest) st) ≡ (here (before ++ bs) rest st, ok v)

same_decoder :
    {A : Type 0} (raw raw' : List ℕ) (off off' : ℕ) (st : List Frame) (v v' : A)
    → raw ≡ raw'
    → off ≡ off'
    → v ≡ v'
    → ◌≡◌ {A = Decoder × Result A}
        (record { raw = raw; off = off; stack = st }, ok v)
        (record { raw = raw'; off = off'; stack = st }, ok v')
same_decoder raw raw' off off' st v v' p q r = cc

module _ (before bs rest : List ℕ) where
  pub rest_length : length (before ++ (bs ++ rest)) ≡ length before + length bs + length rest
  rest_length = omega (arith, length-append before (bs ++ rest), length-append bs rest)

  slice_here : (n : ℕ) → length bs ≡ n → slice (length before) n (before ++ (bs ++ rest)) ≡ bs
  slice_here n e =
      rw (drop-append (length before) before (bs ++ rest) refl) (take-append n bs rest (sym e))

  -- The decoder after a step over `bs`.
  step_over :
      {A : Type 0} (n : ℕ) (st : List Frame) (v : A)
      → length bs ≡ n
      → ◌≡◌ {A = Decoder × Result A}
          (record { raw = before ++ (bs ++ rest); off = length before + n; stack = st }, ok v)
          (here (before ++ bs) rest st, ok v)
  step_over n st v e =
      same_decoder _ _ _ _ st v v (sym (append_assoc before bs rest))
        (omega (arith, length-append before bs)) refl

pub fixed-Reads : (n : ℕ) (bs : List ℕ) → length bs ≡ n → Reads (fixed n) bs bs
unfolding fixed
fixed-Reads n bs e before rest st =
    rw
      (
        le→ltb (remaining (here before (bs ++ rest) st)) n
            (omega (arith, rest_length before bs rest)),
        slice_here before bs rest n e,
      )
      (step_over before bs rest n st bs e)

pub unchecked-Reads : (n : ℕ) (bs : List ℕ) → length bs ≡ n → Reads (unchecked n) bs bs
unfolding unchecked
unchecked-Reads n bs e before rest st =
    rw
      (
        le→ltb (remaining (here before (bs ++ rest) st)) n
            (omega (arith, rest_length before bs rest)),
        slice_here before bs rest n e,
      )
      (step_over before bs rest n st bs e)

pub raw_bytes-Reads : (bs : List ℕ) → Reads (get_raw_bytes (pos (length bs))) bs bs
unfolding get_raw_bytes
raw_bytes-Reads bs = fixed-Reads (length bs) bs refl

pub uvarint-Reads : (x : ℕ) → x < 2 ^ 64 → Reads get_uvarint (put_uvarint x) x
unfolding get_uvarint scanned
uvarint-Reads x h before rest st =
    rw
      (
        drop-append (length before) before (put_uvarint x ++ rest) refl,
        uvarint-put_uvarint x rest h,
      )
      (step_over before (put_uvarint x) rest _ st x refl)

pub varint-Reads : (z : ℤ) → Fits (2 ^ 63) z → Reads get_varint (put_uvarint (zigzag z)) z
unfolding get_varint scanned
varint-Reads z h before rest st =
    rw
      (
        drop-append (length before) before (put_uvarint (zigzag z) ++ rest) refl,
        uvarint-put_uvarint (zigzag z) rest (zigzag-lt z h),
        unzigzag-zigzag z,
      )
      (step_over before (put_uvarint (zigzag z)) rest _ st z refl)

module _ {A : Type 0} where
  pub pure-Reads : (v : A) → Reads (pure v) [] v
  pure-Reads v before rest st = rw append-nil

  -- One reading after the other, over the bytes of both.
  pub bind-Reads :
      {B : Type 0} (m : M A) (f : A → M B) (bs cs : List ℕ) (v : A) (w : B)
      → Reads m bs v
      → Reads (f v) cs w
      → Reads (m >>= f) (bs ++ cs) w
  bind-Reads m f bs cs v w hm hf before rest st =
      rw (append_assoc bs cs rest, hm before (cs ++ rest) st, hf (before ++ bs) rest st)
        (rw (append_assoc before bs cs))

  -- A last step that reads nothing.
  pub map-Reads :
      {B : Type 0} (m : M A) (f : A → B) (bs : List ℕ) (v : A)
      → Reads m bs v
      → Reads (m >>= λ a. pure (f a)) bs (f v)
  map-Reads m f bs v hm before rest st = rw (hm before rest st)

-- A number of `k` bytes, and what it is converted to.
pub number-Reads :
    {A : Type 0} (k x : ℕ) (convert : ℕ → A)
    → x < 256 ^ k
    → Reads (fixed k >>= λ bs. pure (convert (un_be 0 bs))) (be k x) (convert x)
number-Reads k x convert h before rest st =
    rw (fixed-Reads k (be k x) (length-be k x) before rest st, un_be-be k x h)

pub Fits-pos : (half : ℕ) (z : ℤ) → Fits half z → 0 < half
Fits-pos half (pos n) h = omega arith
Fits-pos half (negsuc n) h = omega arith

pub signed-Reads :
    (k half : ℕ) (z : ℤ)
    → 256 ^ k ≡ 2 * half
    → Fits half z
    → Reads (fixed k >>= λ bs. pure (signed half (un_be 0 bs))) (be k (unsigned half z)) z
signed-Reads k half z e h before rest st =
    number-Reads k (unsigned half z) (signed half) (rw e (unsigned-lt half z (Fits-pos half z h)))
      before rest st
    ∙ rw (signed-unsigned half z h)
