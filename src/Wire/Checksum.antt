-- ===== src/Wire/Checksum.antt =====
-- The 32-bit checksums that crc32_field.go takes of Go's hash/crc32, bit by bit.
use Prim.Native.Nat.{bit_xor}
use sarama.Base.{ℕ, ◌/◌, ◌%◌, ◌^◌, List, ◌==◌, if◌then◌else◌}
use mathlib.Core.List.{foldl}

-- `unknown` stands for any other value of the type crcPolynomial.
pub data Polynomial : Type 0 where
  ieee castagnoli unknown : Polynomial

-- One step of the division by the polynomial, whose bits are written in reverse.
crc_bit : ℕ → ℕ → ℕ
crc_bit poly c = if c % 2 == 0 then c / 2 else bit_xor (c / 2) poly

crc_byte : ℕ → ℕ → ℕ → ℕ
unfolding crc_bit
crc_byte poly c b =
    let step = crc_bit poly in step (step (step (step (step (step (step (step (bit_xor c b))))))))

unfoldable pub checksum : ℕ → List ℕ → ℕ
unfolding crc_byte
checksum poly bs = bit_xor (foldl (crc_byte poly) 0xffff_ffff bs) 0xffff_ffff % 2 ^ 32

abbrev pub ieee_table : ℕ
ieee_table = 0xedb8_8320

abbrev pub castagnoli_table : ℕ
castagnoli_table = 0x82f6_3b78
