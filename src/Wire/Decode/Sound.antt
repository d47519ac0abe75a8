-- ===== src/Wire/Decode/Sound.antt =====
-- What every method of the reader keeps: the bytes, and an offset inside them.
use sarama.Base.{
  ℕ, ◌+◌, ◌*◌, ◌%◌, ◌^◌, ◌≤◌, ◌≡◌, ◌∙◌, refl, Bool, List, [], ◌∷◌, length, drop, length-drop, arith,
  if◌then◌else◌,
}
use sarama.Base.Int.{ℤ, pos, negsuc}
use sarama.Wire.Varint.{Scan, short, overflow, done, scan, uvarint}
use sarama.Wire.Decode.Monad.{
  Decoder, Result, ok, err, panic, M, ◌>>=◌, pure, fail, next, fixed, unchecked, remaining,
  DecodingError,
}
use sarama.Wire.Decode.Primitives.{get_varint, get_uvarint, get_raw_bytes, scanned}

abbrev pub InBounds : Decoder → Type 0
InBounds d = d.off ≤ length d.raw

-- From `d` to `d'` the bytes are the same, and the offset has not gone back nor past the end.
pub record Advances (d d' : Decoder) : Type 0 where
  pub raw_same : d'.raw ≡ d.raw
  pub off_up : d.off ≤ d'.off
  pub in_bounds : d'.off ≤ length d'.raw

-- The method advances the decoder, and panics only if `P` holds.
pub record Ends {A : Type 0} (P : Type 0) (d : Decoder) (r : Decoder × Result A) : Type 0 where
  pub advances : Advances d r.0
  pub no_panic : r.1 ≡ panic → P

abbrev pub Sound : {A : Type 0} → Type 0 → M A → Type 0
Sound P m = (d : Decoder) → InBounds d → Ends P d (m d)

Advances-trans : (a b c : Decoder) → Advances a b → Advances b c → Advances a c
Advances-trans a b c h k = record {
  raw_same = k.raw_same ∙ h.raw_same;
  off_up = omega arith;
  in_bounds = k.in_bounds;
}

pub Ends-from :
    {A : Type 0} (P : Type 0) (a b : Decoder) (r : Decoder × Result A)
    → Advances a b
    → Ends P b r
    → Ends P a r
Ends-from P a b r h e = record {
  advances = Advances-trans a b r.0 h e.advances;
  no_panic = e.no_panic;
}

module _ {A B : Type 0} where
  pub bind_assoc :
      {C : Type 0} (m : M A) (f : A → M B) (g : B → M C) (d : Decoder)
      → ((m >>= f) >>= g) d ≡ (m >>= λ a. f a >>= g) d
  bind_assoc m f g d = go (m d)
    where
      go : (r : Decoder × Result A) → next (next r f) g ≡ next r (λ a. f a >>= g)
      go (d', ok a) = refl
      go (d', err x) = refl
      go (d', panic) = refl

module _ {A B : Type 0} (P : Type 0) where
  pub next-Ends :
      (d : Decoder) (r : Decoder × Result A) (f : A → M B)
      → Ends P d r
      → ((a : A) → Sound P (f a))
      → Ends P d (next r f)
  next-Ends d (d', ok a) f h k =
      let e : Ends P d' (f a d') = k a d' h.advances.in_bounds in
      record {
        advances = Advances-trans d d' (f a d').0 h.advances e.advances;
        no_panic = e.no_panic;
      }
  next-Ends d (d', err x) f h k = record { advances = h.advances; no_panic = λ e. cc }
  next-Ends d (d', panic) f h k = record { advances = h.advances; no_panic = λ e. h.no_panic refl }

  pub bind-Sound :
      (m : M A) (f : A → M B) → Sound P m → ((a : A) → Sound P (f a)) → Sound P (m >>= f)
  bind-Sound m f h k d b = next-Ends d (m d) f (h d b) k

module _ {A : Type 0} (P : Type 0) where
  pub pure-Sound : (a : A) → Sound P (pure a)
  pure-Sound a d b = ground arith

  pub fail-Sound : (e : DecodingError) → Sound P (fail {A = A} e)
  fail-Sound e d b = ground arith

  pub if_Sound : (t : Bool) (m k : M A) → Sound P m → Sound P k → Sound P (if t then m else k)
  if_Sound Bool.true m k h l = h
  if_Sound Bool.false m k h l = l

pub fixed-Sound : (P : Type 0) (n : ℕ) → Sound P (fixed n)
unfolding fixed
fixed-Sound P n d b = ground arith

pub unchecked-Sound : (n : ℕ) → Sound (Unit {0}) (unchecked n)
unfolding unchecked
unchecked-Sound n d b = ground arith

-- How far a scan went.
consumed : Scan → ℕ
consumed short = 0
consumed (overflow n) = n
consumed (done x n) = n

consumed-scan : (bs : List ℕ) (i s x : ℕ) → consumed (scan bs i s x) ≤ i + length bs
unfolding consumed scan
consumed-scan [] i s x = omega arith
consumed-scan (b ∷ bs) i s x =
    ground (arith, consumed-scan bs (i + 1) (s + 7) (x + b % 128 * 2 ^ s))

scanned-Sound :
    {A : Type 0} (P : Type 0) (value : ℕ → A) (e : DecodingError) (c : Scan) (d : Decoder)
    → InBounds d
    → consumed c ≤ remaining d
    → Ends P d (scanned value (fail e) c d)
unfolding scanned consumed
scanned-Sound P value e short d b h = ground arith
scanned-Sound P value e (overflow n) d b h = ground arith
scanned-Sound P value e (done x n) d b h = ground arith

consumed-uvarint : (d : Decoder) → consumed (uvarint (drop d.off d.raw)) ≤ remaining d
unfolding uvarint
consumed-uvarint d = omega (arith, consumed-scan (drop d.off d.raw) 0 0 0, length-drop d.off d.raw)

pub get_varint-Sound : (P : Type 0) → Sound P get_varint
unfolding get_varint
get_varint-Sound P d b = scanned-Sound P _ _ _ d b (consumed-uvarint d)

pub get_uvarint-Sound : (P : Type 0) → Sound P get_uvarint
unfolding get_uvarint
get_uvarint-Sound P d b = scanned-Sound P _ _ _ d b (consumed-uvarint d)

pub get_raw_bytes-Sound : (P : Type 0) (n : ℤ) → Sound P (get_raw_bytes n)
unfolding get_raw_bytes
get_raw_bytes-Sound P (pos n) = fixed-Sound P n
get_raw_bytes-Sound P (negsuc n) = fail-Sound P _
