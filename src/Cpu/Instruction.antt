-- ===== src/Cpu/Instruction.antt =====
-- cpu.c: the fields of an instruction word, and the exception codes.
use psx_emulator_em_c.Base.{ℕ, signed16, to_u32, low_bits, ◌>>◌}

-- `Exception`.
pub data Exception : Type 0 where
  exc_interrupt exc_load_address_error exc_store_address_error exc_syscall exc_break : Exception
  exc_illegal_instruction exc_coprocessor_error exc_overflow : Exception

abbrev pub code : Exception → ℕ
code exc_interrupt = 0x00
code exc_load_address_error = 0x04
code exc_store_address_error = 0x05
code exc_syscall = 0x08
code exc_break = 0x09
code exc_illegal_instruction = 0x0a
code exc_coprocessor_error = 0x0b
code exc_overflow = 0x0c

abbrev pub instr_function : ℕ → ℕ
instr_function op = op >> 26

abbrev pub instr_s : ℕ → ℕ
instr_s op = low_bits (op >> 21) 5

abbrev pub instr_t : ℕ → ℕ
instr_t op = low_bits (op >> 16) 5

abbrev pub instr_d : ℕ → ℕ
instr_d op = low_bits (op >> 11) 5

abbrev pub instr_imm : ℕ → ℕ
instr_imm op = low_bits op 16

unfoldable pub instr_imm_se : ℕ → ℕ
instr_imm_se op = to_u32 (signed16 (low_bits op 16))

abbrev pub instr_shift : ℕ → ℕ
instr_shift op = low_bits (op >> 6) 5

abbrev pub instr_subfunction : ℕ → ℕ
instr_subfunction op = low_bits op 6

abbrev pub instr_imm_jump : ℕ → ℕ
instr_imm_jump op = low_bits op 26

abbrev pub instr_cop_opcode : ℕ → ℕ
instr_cop_opcode op = low_bits (op >> 21) 5
