-- ===== src/Wire/Varint.antt =====
-- Variable-length integers, as real_encoder.go and real_decoder.go use them of Go's encoding/binary.
use sarama.Base.{
  ℕ, zero, suc, ◌+◌, ◌*◌, ◌/◌, ◌%◌, ◌^◌, ◌<◌, ◌≡◌, ◌&&◌, List, [], ◌∷◌, ◌++◌, length, ap, arith,
  ltb, ◌==◌, if◌then◌else◌,
}
use sarama.Base.Int.{ℤ, pos, negsuc, Fits}
use native.Mathlib.Nat.{div-add-mod}
use native.Mathlib.Numerals.{towards_suc}

-- PutUvarint, with the number of groups that may follow: seven bits a byte, lowest first. Ten bytes
-- hold a uint64.
unfoldable pub groups : ℕ → ℕ → List ℕ
groups zero x = x ∷ []
groups (suc k) x =
    let more = groups k (x / 128) in if ltb x 128 then x ∷ [] else (x % 128 + 128) ∷ more

unfoldable pub put_uvarint : ℕ → List ℕ
unfolding groups
put_uvarint x = groups 9 x

-- What Uvarint returns: no number yet (n = 0), an overflow after `n` bytes (-n), or a number that
-- takes `n` bytes.
pub data Scan : Type 0 where
  short : Scan
  overflow : ℕ → Scan
  done : ℕ → ℕ → Scan

-- The loop of Uvarint at byte `i` with the shift `s`; the groups do not overlap, so `|` is a sum.
unfoldable pub scan : List ℕ → ℕ → ℕ → ℕ → Scan
scan [] i s x = short
scan (b ∷ bs) i s x =
    let more = scan bs (i + 1) (s + 7) (x + b % 128 * 2 ^ s) in
    if i == 10
    then overflow (i + 1)
    else if ltb b 128
    then (if i == 9 && ltb 1 b then overflow (i + 1) else done (x + b * 2 ^ s) (i + 1))
    else more

unfoldable pub uvarint : List ℕ → Scan
unfolding scan
uvarint bs = scan bs 0 0 0

-- The zig-zag code of PutVarint and Varint.
abbrev pub zigzag : ℤ → ℕ
zigzag (pos n) = 2 * n
zigzag (negsuc n) = 2 * n + 1

abbrev pub unzigzag : ℕ → ℤ
unzigzag u = if u % 2 == 0 then pos (u / 2) else negsuc (u / 2)

pub unzigzag-zigzag : (z : ℤ) → unzigzag (zigzag z) ≡ z
unzigzag-zigzag (pos n) = ground arith
unzigzag-zigzag (negsuc n) = ground arith

pub zigzag-lt : (z : ℤ) → Fits (2 ^ 63) z → zigzag z < 2 ^ 64
zigzag-lt (pos n) h = omega arith
zigzag-lt (negsuc n) h = omega arith

shift_group : (s : ℕ) → 2 ^ (s + 7) ≡ 128 * 2 ^ s
shift_group s = simp towards_suc (omega arith)

-- The lowest group of `x` and what is above it, both counted from bit `s`.
cut_group : (x s : ℕ) → x % 128 * 2 ^ s + x / 128 * 2 ^ (s + 7) ≡ x * 2 ^ s
cut_group x s = omega (
  arith,
  ap (λ (t : ℕ). t * 2 ^ s) (div-add-mod x 128),
  ap (λ (t : ℕ). x / 128 * t) (shift_group s),
)

scan-inner :
    (g i s x : ℕ) (rest : List ℕ)
    → g < 128
    → i < 10
    → scan ((g + 128) ∷ rest) i s x ≡ scan rest (i + 1) (s + 7) (x + g * 2 ^ s)
unfolding scan
scan-inner g i s x rest hg hi = ground arith

scan-last :
    (x i s acc : ℕ) (rest : List ℕ)
    → x < 128
    → i < 9
    → scan (x ∷ rest) i s acc ≡ done (acc + x * 2 ^ s) (i + 1)
unfolding scan
scan-last x i s acc rest hx hi = ground arith

scan-groups :
    (k x i s acc : ℕ) (rest : List ℕ)
    → x < 2 * 128 ^ k
    → i + k ≡ 9
    → scan (groups k x ++ rest) i s acc ≡ done (acc + x * 2 ^ s) (i + length (groups k x))
unfolding groups
scan-groups zero x i s acc rest hx hi = unfold scan in ground arith
scan-groups (suc k) x i s acc rest hx hi = ground (
  arith,
  cut_group x s,
  scan-inner (x % 128) i s acc (groups k (x / 128) ++ rest),
  scan-groups k (x / 128) (i + 1) (s + 7) (acc + x % 128 * 2 ^ s) rest (omega arith),
  scan-last x i s acc rest,
)

-- Uvarint reads back what PutUvarint wrote, whatever follows it.
pub uvarint-put_uvarint :
    (x : ℕ) (rest : List ℕ)
    → x < 2 ^ 64
    → uvarint (put_uvarint x ++ rest) ≡ done x (length (put_uvarint x))
unfolding uvarint put_uvarint
uvarint-put_uvarint x rest h = ground (arith, scan-groups 9 x 0 0 0 rest)
