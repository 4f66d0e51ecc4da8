-- ===== src/Recovery/Journal/Checksum.antt =====
-- `crc64` of crates/uf-daemon/src/ddr_recovery_journal.rs: the polynomial ECMA-182, not reflected.
use Prim.Native.Nat.{bit_and, bit_xor, bit_xor-bitwise, digits, differ}
use uflow.Prelude.{
  ℕ, zero, suc, ◌*◌, ◌/◌, ◌%◌, ◌^◌, ◌≤◌, ◌<◌, max, List, [], ◌∷◌, not, ◌==◌, if◌then◌else◌, u64_mod,
  arith,
}

abbrev pub crc_poly : ℕ
crc_poly = 0x42f0_e1eb_a9ea_3693

-- A turn of the inner loop of `crc_table`.
unfoldable pub crc_bit : ℕ → ℕ
crc_bit crc =
    if not (bit_and crc 0x8000_0000_0000_0000 == 0)
    then bit_xor (crc * 2 % u64_mod) crc_poly
    else crc * 2 % u64_mod

unfoldable pub crc_bits : ℕ → ℕ → ℕ
crc_bits zero crc = crc
crc_bits (suc n) crc = crc_bits n (crc_bit crc)

-- `CRC_TABLE[i]`
unfoldable pub crc_entry : ℕ → ℕ
crc_entry i = crc_bits 8 (i * 0x100_0000_0000_0000 % u64_mod)

-- A turn of the loop of `crc64`.
unfoldable pub crc_step : ℕ → ℕ → ℕ
crc_step crc byte =
    bit_xor (crc * 256 % u64_mod) (crc_entry (bit_xor (crc / 0x100_0000_0000_0000 % 256) byte))

unfoldable pub crc_from : ℕ → List ℕ → ℕ
crc_from crc [] = crc
crc_from crc (byte ∷ bytes) = crc_from (crc_step crc byte) bytes

unfoldable pub crc64 : List ℕ → ℕ
crc64 bytes = crc_from 0 bytes

differ_le : (x y : ℕ) → differ x y ≤ max x y
differ_le zero y = omega arith
differ_le (suc x) zero = omega arith
differ_le (suc x) (suc y) = omega (arith, differ_le x y)

-- No digit is set above those of the arguments.
digits_below : (w n a b : ℕ) → a < 2 ^ w → b < 2 ^ w → digits (λ b. b) differ n a b < 2 ^ w
digits_below w zero a b small_a small_b = small_b
digits_below w (suc n) zero b small_a small_b = small_b
digits_below zero (suc n) (suc a) b small_a small_b = absurd (omega arith)
digits_below (suc w) (suc n) (suc a) b small_a small_b = omega (
  arith,
  digits_below w n (suc a / 2) (b / 2) (omega arith) (omega arith),
  differ_le (suc a % 2) (b % 2),
)

bit_xor_below : (a b : ℕ) → a < u64_mod → b < u64_mod → bit_xor a b < u64_mod
bit_xor_below a b small_a small_b = rw (bit_xor-bitwise a b) (digits_below 64 a a b small_a small_b)

crc_bits_below : (n crc : ℕ) → crc < u64_mod → crc_bits n crc < u64_mod
unfolding crc_bits crc_bit
crc_bits_below zero crc small = small
crc_bits_below (suc n) crc small =
    crc_bits_below n (crc_bit crc) (ground (arith, bit_xor_below (crc * 2 % u64_mod) crc_poly))

crc_entry_below : (i : ℕ) → crc_entry i < u64_mod
unfolding crc_entry
crc_entry_below i = crc_bits_below 8 (i * 0x100_0000_0000_0000 % u64_mod) (omega arith)

crc_step_below : (crc byte : ℕ) → crc_step crc byte < u64_mod
unfolding crc_step
crc_step_below crc byte =
    let index = bit_xor (crc / 0x100_0000_0000_0000 % 256) byte in
    bit_xor_below (crc * 256 % u64_mod) (crc_entry index) (omega arith) (crc_entry_below index)

crc_from_below : (crc : ℕ) (bytes : List ℕ) → crc < u64_mod → crc_from crc bytes < u64_mod
unfolding crc_from
crc_from_below crc [] small = small
crc_from_below crc (byte ∷ bytes) small =
    crc_from_below (crc_step crc byte) bytes (crc_step_below crc byte)

-- A checksum has 64 bits.
pub crc64_below : (bytes : List ℕ) → crc64 bytes < u64_mod
unfolding crc64
crc64_below bytes = crc_from_below 0 bytes (omega arith)
