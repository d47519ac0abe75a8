-- ===== src/Partitioner/Hash.antt =====
-- hashPartitioner of partitioner.go. The hash function, the fallback's choice and the encoder of the
-- key are parameters.
use sarama.Base.{
  if_both, ℕ, zero, suc, ◌+◌, ◌%◌, ◌^◌, ◌<◌, ◌≡◌, Bool, false, List, ◌==◌, if◌then◌else◌, arith,
}
use sarama.Base.Int.{ℤ, pos, negsuc, signed}
use native.Mathlib.Nat.{mod-lt}

pub record HashPartitioner : Type 0 where
  pub hasher : List ℕ → ℕ
  pub reference_abs : Bool
  pub hash_unsigned : Bool

-- The key of a message: nil, or what its Encode gives.
pub data Key : Type 0 where
  nil_key encode_error : Key
  encoded : List ℕ → Key

-- `crashed` is the panic of a division by zero.
pub data Choice : Type 0 where
  chosen : ℤ → Choice
  failed crashed : Choice

abbrev pub negate : ℕ → ℤ
negate zero = pos 0
negate (suc n) = negsuc n

-- Go's `%` by a positive number, which has the sign of the dividend.
abbrev pub rem : ℤ → ℕ → ℤ
rem (pos a) n = pos (a % n)
rem (negsuc a) n = negate ((a + 1) % n)

-- `if partition < 0 { partition = -partition }`
abbrev pub absolute : ℤ → ℤ
absolute (pos a) = pos a
absolute (negsuc a) = pos (a + 1)

-- The partition for a hash of 32 bits; `x & 0x7fffffff` of an int32 is its lower 31 bits.
unfoldable pub hashed : HashPartitioner → ℕ → ℕ → ℤ
hashed p sum n =
    if p.reference_abs
    then pos (sum % 2 ^ 31 % n)
    else if p.hash_unsigned
    then signed (2 ^ 31) (sum % n)
    else absolute (rem (signed (2 ^ 31) sum) n)

-- `fallback` is what the random partitioner chooses.
unfoldable pub partition : HashPartitioner → ℤ → Key → ℕ → Choice
unfolding hashed
partition p fallback nil_key n = chosen fallback
partition p fallback encode_error n = failed
partition p fallback (encoded bs) n = if n == 0 then crashed else chosen (hashed p (p.hasher bs) n)

-- A partition is one of `n`, and only a key that cannot be encoded fails.
abbrev pub IsPartition : ℕ → ℤ → Type 0
IsPartition n (pos k) = k < n
IsPartition n (negsuc k) = ⊥

abbrev pub IsChoice : Key → ℕ → Choice → Type 0
IsChoice encode_error n failed = Unit {0}
IsChoice key n failed = ⊥
IsChoice key n (chosen z) = IsPartition n z
IsChoice key n crashed = ⊥

negated-IsPartition : (m n : ℕ) → m < n → IsPartition n (absolute (negate m))
negated-IsPartition zero n h = h
negated-IsPartition (suc m) n h = omega arith

signed-IsPartition : (m n : ℕ) → m < n → n < 2 ^ 31 → IsPartition n (signed (2 ^ 31) m)
signed-IsPartition m n h b = ground arith

absolute-IsPartition : (z : ℤ) (n : ℕ) → 0 < n → IsPartition n (absolute (rem z n))
absolute-IsPartition (pos a) n h = mod-lt a h
absolute-IsPartition (negsuc a) n h = negated-IsPartition ((a + 1) % n) n (mod-lt (a + 1) h)

hashed-IsPartition :
    (p : HashPartitioner) (sum n : ℕ) → 0 < n → n < 2 ^ 31 → IsPartition n (hashed p sum n)
unfolding hashed
hashed-IsPartition p sum n h b =
    if_both (IsPartition n) p.reference_abs _ _ (mod-lt (sum % 2 ^ 31) h) (
      if_both (IsPartition n) p.hash_unsigned _ _ (signed-IsPartition (sum % n) n (mod-lt sum h) b)
        (absolute-IsPartition (signed (2 ^ 31) sum) n h))

positive-eqb : (n : ℕ) → 0 < n → (n == 0) ≡ false
positive-eqb n h = ground arith

-- Whatever the hash of the key and the kind of the partitioner, and where the fallback chooses one of
-- the `n` partitions, so does the partitioner, unless the key cannot be encoded: the remainder is
-- never negative, and no partition is past the last.
pub partition-IsChoice :
    (p : HashPartitioner) (fallback : ℤ) (key : Key) (n : ℕ)
    → 0 < n
    → n < 2 ^ 31
    → IsPartition n fallback
    → IsChoice key n (partition p fallback key n)
unfolding partition
partition-IsChoice p fallback nil_key n h b f = f
partition-IsChoice p fallback encode_error n h b f = tt
partition-IsChoice p fallback (encoded bs) n h b f =
    simp (positive-eqb n h) (hashed-IsPartition p (p.hasher bs) n h b)
