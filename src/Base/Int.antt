-- ===== src/Base/Int.antt =====
-- Signed integers over the native numbers, and two's complement words: a word of `w` bits is given
-- by `half`, which is 2 ^ (w - 1).
use sarama.Base.{
  ℕ, zero, suc, ◌+◌, ◌-◌, ◌*◌, ◌%◌, ◌<◌, ◌≡◌, Bool, true, false, arith, ltb, ◌==◌, if◌then◌else◌,
}
use native.Mathlib.Nat.{mod-eq_of_lt}

-- `negsuc n` is -(n + 1).
pub data ℤ : Type 0 where
  pos : ℕ → ℤ
  negsuc : ℕ → ℤ

-- The value of a word, as a signed number: Go's conversion of an unsigned integer to a signed one.
abbrev pub signed : ℕ → ℕ → ℤ
signed half u = if ltb u half then pos u else negsuc (2 * half - 1 - u)

-- The word of a signed number: Go's conversion of a signed integer to an unsigned one.
abbrev pub unsigned : ℕ → ℤ → ℕ
unsigned half (pos n) = n % (2 * half)
unsigned half (negsuc n) = 2 * half - 1 - n % (2 * half)

-- The signed number fits the word.
abbrev pub Fits : ℕ → ℤ → Type 0
Fits half (pos n) = n < half
Fits half (negsuc n) = n < half

mod_small : (n half : ℕ) → n < half → n % (2 * half) ≡ n
mod_small n half h = mod-eq_of_lt (omega arith)

pub signed-unsigned : (half : ℕ) (z : ℤ) → Fits half z → signed half (unsigned half z) ≡ z
signed-unsigned half (pos n) h = ground (arith, mod_small n half h)
signed-unsigned half (negsuc n) h = ground (arith, mod_small n half h)

pub unsigned-lt : (half : ℕ) (z : ℤ) → 0 < half → unsigned half z < 2 * half
unsigned-lt half (pos n) h = omega arith
unsigned-lt half (negsuc n) h = omega arith

-- Equality and order of integers, as tests.
abbrev pub eqb_ℤ : ℤ → ℤ → Bool
eqb_ℤ (pos a) (pos b) = a == b
eqb_ℤ (negsuc a) (negsuc b) = a == b
eqb_ℤ _ _ = false

abbrev pub ltb_ℤ : ℤ → ℤ → Bool
ltb_ℤ (pos a) (pos b) = ltb a b
ltb_ℤ (pos a) (negsuc b) = false
ltb_ℤ (negsuc a) (pos b) = true
ltb_ℤ (negsuc a) (negsuc b) = ltb b a

abbrev pub suc_ℤ : ℤ → ℤ
suc_ℤ (pos n) = pos (n + 1)
suc_ℤ (negsuc zero) = pos 0
suc_ℤ (negsuc (suc n)) = negsuc n

abbrev pub minus_one : ℤ
minus_one = negsuc 0
