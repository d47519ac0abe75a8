-- ===== src/Protocol/Rules.antt =====
-- How the fields of a message are read back.
use sarama.Base.{
  ℕ, ◌^◌, ◌≤◌, ◌<◌, ◌≡◌, refl, sym, ap, subst, ◌∙◌, Bool, true, false, List, [], ◌∷◌, ◌++◌, Option,
  none, some, length, length-append, append_assoc, All, arith,
}
use sarama.Base.Int.{ℤ, pos, Fits, unsigned}
use sarama.Wire.Bytes.{length-be}
use sarama.Wire.Decode.Monad.{M, ◌>>=◌, pure}
use sarama.Wire.Decode.Primitives.{get_int16, get_int32, get_array_length}
use sarama.Wire.Decode.Collections.{get_bytes, get_string, get_nullable_string}
use sarama.Wire.Encode.Packet.{Put, Packet, end, put}
use sarama.Wire.Encode.Encoding.{put_bytes, encoding, int16_bytes, int32_bytes}
use sarama.Wire.RoundTrip.Reads.{Reads, pure-Reads, bind-Reads, map-Reads}
use sarama.Wire.RoundTrip.Lengths.{length_here}
use sarama.Wire.RoundTrip.Puts.{bytes-Reads, null_bytes-Reads, int16-Reads, int32-Reads}
use sarama.Wire.RoundTrip.Arrays.{string-Reads, nullable_string-Reads, null_string-Reads}
use sarama.Protocol.Fields.{
  put_if, get_if, put_elements, get_each, put_all, make_each, get_made, positive_each, get_positive,
}

module _ {A B : Type 0} (m : M A) (f : A → M B) (p : Put) (rest : Packet) (v : A) (w : B) where
  -- A field, and what follows it.
  pub field-Reads :
      Reads m (put_bytes p) v
      → Reads (f v) (encoding rest) w
      → Reads (m >>= f) (encoding (put p rest)) w
  unfolding encoding
  field-Reads h k = bind-Reads m f (put_bytes p) (encoding rest) v w h k

  -- A field that some versions have; the others leave it at its default.
  pub field_if-Reads :
      (b : Bool) (default : A)
      → Reads m (put_bytes p) v
      → (b ≡ false → v ≡ default)
      → Reads (f v) (encoding rest) w
      → Reads (get_if b m default >>= f) (encoding (put_if b p rest)) w
  field_if-Reads true default h e k = field-Reads h k
  field_if-Reads false default h e k = subst (λ (x : A). Reads (f x) (encoding rest) w) (e refl) k

-- The last step of a method.
pub done-Reads : {A : Type 0} (v : A) → Reads (pure v) (encoding end) v
unfolding encoding
done-Reads v = pure-Reads v

abbrev pub IsSayableNullable : Option (List ℕ) → Type 0
IsSayableNullable none = Unit {0}
IsSayableNullable (some bs) = length bs < 2 ^ 15

abbrev pub IsSayableSlice : Option (List ℕ) → Type 0
IsSayableSlice none = Unit {0}
IsSayableSlice (some bs) = length bs < 2 ^ 31

pub put_nullable-Reads :
    (s : Option (List ℕ))
    → IsSayableNullable s
    → Reads get_nullable_string (put_bytes (Put.nullable_string s)) s
unfolding put_bytes
put_nullable-Reads none h = null_string-Reads
put_nullable-Reads (some bs) h = nullable_string-Reads bs h

pub put_string-Reads :
    (s : List ℕ) → length s < 2 ^ 15 → Reads get_string (put_bytes (Put.string s)) s
unfolding put_bytes
put_string-Reads s h = string-Reads s h

pub put_slice-Reads :
    (s : Option (List ℕ)) → IsSayableSlice s → Reads get_bytes (put_bytes (Put.bytes s)) s
unfolding put_bytes
put_slice-Reads none h = null_bytes-Reads
put_slice-Reads (some bs) h = bytes-Reads bs h

pub array_length-Reads :
    {B : Type 0} (f : ℤ → M B) (n : ℕ) (bs : List ℕ) (w : B)
    → n ≤ length bs
    → n ≤ 131070
    → Reads (f (pos n)) bs w
    → Reads (get_array_length >>= f) (int32_bytes (pos n) ++ bs) w
array_length-Reads f n bs w h k r before rest st =
    rw
      (
        append_assoc (int32_bytes (pos n)) bs rest,
        length_here n bs before rest st h k,
        r (before ++ int32_bytes (pos n)) rest st,
      )
      (rw (append_assoc before (int32_bytes (pos n)) bs))

-- A loop over elements that take at least one byte each.
module _ {A : Type 0} (f : A → Packet → Packet) (m : M A) where
  abbrev pub IsElement : A → Type 0
  IsElement x =
      ((rest : Packet) → encoding (f x rest) ≡ encoding (f x end) ++ encoding rest)
      × (1 ≤ length (encoding (f x end)))
      × Reads m (encoding (f x end)) x

  each-length : (xs : List A) → All IsElement xs → length xs ≤ length (encoding (put_elements f xs))
  unfolding put_elements
  each-length [] h = omega arith
  each-length (x ∷ xs) h =
      let (e, l, r) = h.0 in
      omega (
        arith,
        ap length (e (put_elements f xs)),
        l,
        length-append (encoding (f x end)) (encoding (put_elements f xs)),
        each-length xs h.1,
      )

  pub each-Reads :
      (xs : List A)
      → All IsElement xs
      → Reads (get_each (length xs) m) (encoding (put_elements f xs)) xs
  unfolding put_elements get_each encoding
  each-Reads [] h = pure-Reads []
  each-Reads (x ∷ xs) h =
      let (e, l, r) = h.0 in
      subst (λ cs. Reads (get_each (length (x ∷ xs)) m) cs (x ∷ xs)) (sym (e (put_elements f xs)))
        (bind-Reads m _ (encoding (f x end)) (encoding (put_elements f xs)) x (x ∷ xs) r (
          map-Reads (get_each (length xs) m) (λ ys. x ∷ ys) (encoding (put_elements f xs)) xs
            (each-Reads xs h.1)))

  pub all-Reads :
      {B : Type 0} (g : ℤ → M B) (xs : List A) (w : B)
      → length xs ≤ 131070
      → All IsElement xs
      → Reads (g (pos (length xs))) (encoding (put_elements f xs)) w
      → Reads (get_array_length >>= g) (encoding (put_all f xs)) w
  unfolding encoding put_bytes
  all-Reads g xs w k h r =
      array_length-Reads g (length xs) (encoding (put_elements f xs)) w (each-length xs h) k r

  pub made-Reads :
      (xs : List A)
      → length xs ≤ 131070
      → All IsElement xs
      → Reads (get_made m) (encoding (put_all f xs)) xs
  unfolding get_made make_each
  made-Reads xs k h = all-Reads (make_each m) xs xs k h (each-Reads xs h)

  pub positive-Reads :
      (xs : List A)
      → length xs ≤ 131070
      → All IsElement xs
      → Reads (get_positive m) (encoding (put_all f xs)) xs
  unfolding get_positive positive_each
  positive-Reads xs k h = all-Reads (positive_each m) xs xs k h (each-Reads xs h)

pub put_int32-Reads : (z : ℤ) → Fits (2 ^ 31) z → Reads get_int32 (put_bytes (Put.int32 z)) z
unfolding put_bytes
put_int32-Reads z h = int32-Reads z h

pub put_int16-Reads : (z : ℤ) → Fits 0x8000 z → Reads get_int16 (put_bytes (Put.int16 z)) z
unfolding put_bytes
put_int16-Reads z h = int16-Reads z h

-- The last field of a message, at the end of its bytes.
pub last-Reads :
    {A B : Type 0} (m : M A) (f : A → B) (rest : Packet) (v : A)
    → Reads m (encoding rest) v
    → Reads (m >>= λ a. pure (f a)) (encoding rest) (f v)
last-Reads m f rest v h = map-Reads m f (encoding rest) v h

-- A string takes two bytes at least.
string-length : (s : List ℕ) (bs : List ℕ) → 1 ≤ length (put_bytes (Put.string s) ++ bs)
unfolding put_bytes
string-length s bs = omega (
  arith,
  length-append (put_bytes (Put.string s)) bs,
  length-append (int16_bytes (pos (length s))) s,
  length-be 2 (unsigned 0x8000 (pos (length s))),
)

-- Calls that end with the rest of the packet.
abbrev pub Flat : (Packet → Packet) → Type 0
Flat f = (rest : Packet) → encoding (f rest) ≡ encoding (f end) ++ encoding rest

pub rest-Flat : Flat (λ rest. rest)
unfolding encoding
rest-Flat rest = refl

pub put-Flat : (p : Put) (f : Packet → Packet) → Flat f → Flat (λ rest. put p (f rest))
unfolding encoding
put-Flat p f h rest =
    ap (λ bs. put_bytes p ++ bs) (h rest)
    ∙ sym (append_assoc (put_bytes p) (encoding (f end)) (encoding rest))

pub put_if-Flat :
    (b : Bool) (p : Put) (f : Packet → Packet) → Flat f → Flat (λ rest. put_if b p (f rest))
put_if-Flat true p f h = put-Flat p f h
put_if-Flat false p f h = h

-- What starts with a string is not empty.
pub string_first : (s : List ℕ) (rest : Packet) → 1 ≤ length (encoding (put (Put.string s) rest))
unfolding encoding
string_first s rest = string-length s (encoding rest)
