-- ===== src/Wire/Bytes.antt =====
-- Big-endian integers, as real_encoder.go and real_decoder.go use them of Go's encoding/binary.
use sarama.Base.{
  ℕ, zero, suc, ◌+◌, ◌*◌, ◌/◌, ◌%◌, ◌^◌, ◌<◌, ◌≡◌, refl, List, [], ◌∷◌, ◌++◌, length, length-append,
  arith,
}

-- The `k` bytes of BigEndian.PutUint16, PutUint32 and PutUint64: the low bytes of `x`, highest first.
unfoldable pub be : ℕ → ℕ → List ℕ
be zero x = []
be (suc k) x = be k (x / 256) ++ (x % 256 ∷ [])

-- BigEndian.Uint16, Uint32 and Uint64.
unfoldable pub un_be : ℕ → List ℕ → ℕ
un_be acc [] = acc
un_be acc (b ∷ bs) = un_be (acc * 256 + b) bs

pub length-be : (k x : ℕ) → length (be k x) ≡ k
unfolding be
length-be zero x = refl
length-be (suc k) x =
    omega (arith, length-append (be k (x / 256)) (x % 256 ∷ []), length-be k (x / 256))

un_be-append : (acc : ℕ) (xs ys : List ℕ) → un_be acc (xs ++ ys) ≡ un_be (un_be acc xs) ys
unfolding un_be
un_be-append acc [] ys = refl
un_be-append acc (x ∷ xs) ys = un_be-append (acc * 256 + x) xs ys

un_be-snoc : (acc : ℕ) (xs : List ℕ) (b : ℕ) → un_be acc (xs ++ (b ∷ [])) ≡ un_be acc xs * 256 + b
unfolding un_be
un_be-snoc acc xs b = un_be-append acc xs (b ∷ [])

pub un_be-be : (k x : ℕ) → x < 256 ^ k → un_be 0 (be k x) ≡ x
unfolding be
un_be-be zero x h = unfold un_be in omega arith
un_be-be (suc k) x h =
    omega (arith, un_be-snoc 0 (be k (x / 256)) (x % 256), un_be-be k (x / 256) (omega arith))
