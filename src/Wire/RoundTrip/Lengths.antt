-- ===== src/Wire/RoundTrip/Lengths.antt =====
-- The length of an array is read back where as many bytes follow it.
use sarama.Base.{
  ℕ, ◌^◌, ◌%◌, ◌≤◌, ◌≡◌, ap, subst, ◌∙◌, List, [], ◌++◌, length, append-nil, le→ltb, arith,
}
use sarama.Base.Int.{ℤ, pos, signed, signed-unsigned}
use sarama.Wire.Bytes.{un_be, un_be-be, length-be}
use sarama.Wire.Decode.Monad.{Decoder, Result, next, ok, remaining, Frame}
use sarama.Wire.Decode.Primitives.{get_array_length, check_length}
use sarama.Wire.Encode.Packet.{Put}
use sarama.Wire.Encode.Encoding.{put_bytes, int32_bytes}
use sarama.Wire.RoundTrip.Reads.{here, fixed-Reads, rest_length}

check_length_lem :
    (n : ℕ) (d : Decoder) → n ≤ remaining d → n ≤ 131070 → check_length (pos n) d ≡ (d, ok (pos n))
unfolding check_length
check_length_lem n d h k = rw (le→ltb (remaining d) n h, le→ltb 131070 n k)

count_lem : (n : ℕ) → n ≤ 131070 → signed (2 ^ 31) (un_be 0 (int32_bytes (pos n))) ≡ pos n
count_lem n h =
    ap (signed (2 ^ 31)) (un_be-be 4 (n % 2 ^ 32) (omega arith))
    ∙ signed-unsigned (2 ^ 31) (pos n) (omega arith)

-- The length of an array is accepted where at least as many bytes follow.
pub length_here :
    (n : ℕ) (bs before rest : List ℕ) (st : List Frame)
    → n ≤ length bs
    → n ≤ 131070
    → get_array_length (here before (int32_bytes (pos n) ++ (bs ++ rest)) st)
      ≡ (here (before ++ int32_bytes (pos n)) (bs ++ rest) st, ok (pos n))
unfolding get_array_length
length_here n bs before rest st h k =
    ap
      (λ (x : Decoder × Result (List ℕ)).
        next x (λ cs. check_length (signed (2 ^ 31) (un_be 0 cs))))
      (fixed-Reads 4 (int32_bytes (pos n)) (length-be 4 _) before (bs ++ rest) st)
    ∙ ap (λ (z : ℤ). check_length z (here (before ++ int32_bytes (pos n)) (bs ++ rest) st))
        (count_lem n k)
    ∙ check_length_lem n (here (before ++ int32_bytes (pos n)) (bs ++ rest) st)
        (omega (arith, h, rest_length (before ++ int32_bytes (pos n)) bs rest)) k

-- The same with nothing between the length and what follows.
pub get_array_length-put_bytes :
    (n : ℕ) (before rest : List ℕ) (st : List Frame)
    → n ≤ length rest
    → n ≤ 131070
    → get_array_length (here before (put_bytes (Put.array_length (pos n)) ++ rest) st)
      ≡ (here (before ++ put_bytes (Put.array_length (pos n))) rest st, ok (pos n))
unfolding put_bytes
get_array_length-put_bytes n before rest st h k =
    subst
      (λ (r : List ℕ).
        get_array_length (here before (int32_bytes (pos n) ++ r) st)
        ≡ (here (before ++ int32_bytes (pos n)) r st, ok (pos n)))
      (append-nil rest) (length_here n rest before [] st h k)
