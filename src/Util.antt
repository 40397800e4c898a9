-- ===== src/Util.antt =====
-- src/include/util/debug.h: the counts of bits and the rounding helpers.
pub mod Rounding
use u_depot.Base.{
  ℕ, zero, suc, ◌+◌, ◌-◌, ◌*◌, ◌/◌, ◌%◌, ◌^◌, bit_and, Bool, true, false, not, ◌&&◌, ltb, ◌==◌,
  if◌then◌else◌, sub64,
}

-- `is_power_of_two(x)`
unfoldable pub is_power_of_two : ℕ → Bool
is_power_of_two x = ltb 0 x && bit_and x (sub64 x 1) == 0

-- The macros NUM_BITS2 to NUM_BITS64: the position of the highest bit.
num_bits2 : ℕ → ℕ
num_bits2 x = if bit_and x 2 == 0 then 0 else 1

num_bits4 : ℕ → ℕ
unfolding num_bits2
num_bits4 x = if bit_and x 0xC == 0 then num_bits2 x else 2 + num_bits2 (x / 2 ^ 2)

num_bits8 : ℕ → ℕ
unfolding num_bits4
num_bits8 x = if bit_and x 0xF0 == 0 then num_bits4 x else 4 + num_bits4 (x / 2 ^ 4)

num_bits16 : ℕ → ℕ
unfolding num_bits8
num_bits16 x = if bit_and x 0xFF00 == 0 then num_bits8 x else 8 + num_bits8 (x / 2 ^ 8)

num_bits32 : ℕ → ℕ
unfolding num_bits16
num_bits32 x = if bit_and x 0xFFFF0000 == 0 then num_bits16 x else 16 + num_bits16 (x / 2 ^ 16)

unfoldable num_bits64 : ℕ → ℕ
unfolding num_bits32
num_bits64 x =
    if bit_and x 0xFFFFFFFF00000000 == 0 then num_bits32 x else 32 + num_bits32 (x / 2 ^ 32)

-- `NUM_BITS(x)`: the number of bits that a number takes.
unfoldable pub num_bits : ℕ → ℕ
unfolding num_bits64
num_bits x = if x == 0 then 0 else num_bits64 x + 1

unfoldable pub udiv_round_up : ℕ → ℕ → ℕ
udiv_round_up dividend divisor =
    if divisor == 0 then 1 else sub64 ((dividend + divisor) % 2 ^ 64) 1 / divisor

unfoldable pub uceil_up : ℕ → ℕ → ℕ
unfolding udiv_round_up
uceil_up val divisor = divisor * udiv_round_up val divisor % 2 ^ 64

unfoldable pub align_up : ℕ → ℕ → ℕ
unfolding uceil_up
align_up val alignment = uceil_up val alignment

unfoldable pub align_down : ℕ → ℕ → ℕ
align_down val alignment = if alignment == 0 then 0 else val / alignment * alignment

-- `while (val) { val >>= 1; bit_nr++; }`. The fuel bounds the shifts; a u64 takes at most 64.
unfoldable pub bit_count : ℕ → ℕ → ℕ → ℕ
bit_count zero val bit_nr = bit_nr
bit_count (suc fuel) val bit_nr =
    let rest = bit_count fuel (val / 2) (bit_nr + 1) in if val == 0 then bit_nr else rest

unfoldable pub round_down_pow2 : ℕ → ℕ
unfolding bit_count
round_down_pow2 val =
    let bit_nr = bit_count 64 val 0 in if ltb 0 bit_nr then 2 ^ (bit_nr - 1) else 0
