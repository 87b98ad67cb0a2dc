-- ===== src/CpuTiming.antt =====
-- cpu_timing.c: the base cost of an instruction and the cost of a multiplication.
pub mod Laws
use psx_emulator_em_c.Base.{
  ℕ, ◌+◌, ◌-◌, ◌*◌, ◌/◌, ◌==◌, if◌then◌else◌, bit_or, bit_xor, signed32, to_u32, shift_right,
  leading_zeroes,
}

unfoldable pub count_leading_zeroes : ℕ → ℕ
count_leading_zeroes value = if value == 0 then 32 else leading_zeroes 32 value

unfoldable pub cpu_instruction_base_cycles : ℕ → ℕ
cpu_instruction_base_cycles instruction = 2

-- `lz / 11` is at most 2: the operand of the count has its lowest bit set.
unfoldable pub cpu_multiply_cycles_signed : ℕ → ℕ
unfolding count_leading_zeroes shift_right leading_zeroes
cpu_multiply_cycles_signed operand =
    let sign_extension = to_u32 (shift_right (signed32 operand) 21) in
    7 + (2 - count_leading_zeroes (bit_or (bit_xor operand sign_extension) 1) / 11) * 4

unfoldable pub cpu_multiply_cycles_unsigned : ℕ → ℕ
unfolding count_leading_zeroes leading_zeroes
cpu_multiply_cycles_unsigned operand = 7 + (2 - count_leading_zeroes (bit_or operand 1) / 11) * 4
