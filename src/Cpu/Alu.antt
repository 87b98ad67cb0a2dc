-- ===== src/Cpu/Alu.antt =====
-- cpu.c: the handlers of arithmetic, logic, shifts, multiplication and division.
use psx_emulator_em_c.Base.{
  ℕ, Option, none, some, ltb, of_bool, u32, add32, sub32, not32, ◌<<◌, ◌>>◌, low_bits, bit_and,
  bit_or, bit_xor,
}
use psx_emulator_em_c.CpuTiming.{cpu_multiply_cycles_signed, cpu_multiply_cycles_unsigned}
use psx_emulator_em_c.Cpu.Instruction.{
  instr_s, instr_t, instr_d, instr_imm, instr_imm_se, instr_shift, exc_overflow,
}
use psx_emulator_em_c.Cpu.State.{
  Machine, Cpu, cpu_reg, cpu_set_reg, cpu_stall_until_muldiv_complete,
}
use psx_emulator_em_c.Cpu.Exceptions.{cpu_exception}
use psx_emulator_em_c.Cpu.Arithmetic.{
  HiLo, add_overflow, sub_overflow, less_signed, sra32, div32, divu32, mult32, multu32,
}

module _ {S : Type 0} where
  abbrev pub rs : Cpu S → ℕ → ℕ
  rs c op = cpu_reg c (instr_s op)

  abbrev pub rt : Cpu S → ℕ → ℕ
  rt c op = cpu_reg c (instr_t op)

  abbrev pub put_hi_lo : Cpu S → HiLo → ℕ → Cpu S
  put_hi_lo c r busy = record c { hi = r.hi; lo = r.lo; muldiv_busy_cycles = busy }

  unfoldable pub op_lui : Cpu S → ℕ → Cpu S
  op_lui c op = cpu_set_reg c (instr_t op) (instr_imm op << 16)

  unfoldable pub op_ori : Cpu S → ℕ → Cpu S
  op_ori c op = cpu_set_reg c (instr_t op) (bit_or (rs c op) (instr_imm op))

  unfoldable pub op_andi : Cpu S → ℕ → Cpu S
  op_andi c op = cpu_set_reg c (instr_t op) (bit_and (rs c op) (instr_imm op))

  unfoldable pub op_xori : Cpu S → ℕ → Cpu S
  op_xori c op = cpu_set_reg c (instr_t op) (bit_xor (rs c op) (instr_imm op))

  unfoldable pub op_and : Cpu S → ℕ → Cpu S
  op_and c op = cpu_set_reg c (instr_d op) (bit_and (rs c op) (rt c op))

  unfoldable pub op_or : Cpu S → ℕ → Cpu S
  op_or c op = cpu_set_reg c (instr_d op) (bit_or (rs c op) (rt c op))

  unfoldable pub op_xor : Cpu S → ℕ → Cpu S
  op_xor c op = cpu_set_reg c (instr_d op) (bit_xor (rs c op) (rt c op))

  unfoldable pub op_nor : Cpu S → ℕ → Cpu S
  op_nor c op = cpu_set_reg c (instr_d op) (not32 (bit_or (rs c op) (rt c op)))

  unfoldable pub op_sll : Cpu S → ℕ → Cpu S
  op_sll c op = cpu_set_reg c (instr_d op) (u32 (rt c op << instr_shift op))

  unfoldable pub op_srl : Cpu S → ℕ → Cpu S
  op_srl c op = cpu_set_reg c (instr_d op) (rt c op >> instr_shift op)

  unfoldable pub op_sra : Cpu S → ℕ → Cpu S
  op_sra c op = cpu_set_reg c (instr_d op) (sra32 (rt c op) (instr_shift op))

  unfoldable pub op_sllv : Cpu S → ℕ → Cpu S
  op_sllv c op = cpu_set_reg c (instr_d op) (u32 (rt c op << low_bits (rs c op) 5))

  unfoldable pub op_srlv : Cpu S → ℕ → Cpu S
  op_srlv c op = cpu_set_reg c (instr_d op) (rt c op >> low_bits (rs c op) 5)

  unfoldable pub op_srav : Cpu S → ℕ → Cpu S
  op_srav c op = cpu_set_reg c (instr_d op) (sra32 (rt c op) (low_bits (rs c op) 5))

  unfoldable pub op_addiu : Cpu S → ℕ → Cpu S
  op_addiu c op = cpu_set_reg c (instr_t op) (add32 (rs c op) (instr_imm_se op))

  unfoldable pub op_addu : Cpu S → ℕ → Cpu S
  op_addu c op = cpu_set_reg c (instr_d op) (add32 (rs c op) (rt c op))

  unfoldable pub op_subu : Cpu S → ℕ → Cpu S
  op_subu c op = cpu_set_reg c (instr_d op) (sub32 (rs c op) (rt c op))

  unfoldable pub op_slti : Cpu S → ℕ → Cpu S
  op_slti c op = cpu_set_reg c (instr_t op) (of_bool (less_signed (rs c op) (instr_imm_se op)))

  unfoldable pub op_sltiu : Cpu S → ℕ → Cpu S
  op_sltiu c op = cpu_set_reg c (instr_t op) (of_bool (ltb (rs c op) (instr_imm_se op)))

  unfoldable pub op_slt : Cpu S → ℕ → Cpu S
  op_slt c op = cpu_set_reg c (instr_d op) (of_bool (less_signed (rs c op) (rt c op)))

  unfoldable pub op_sltu : Cpu S → ℕ → Cpu S
  op_sltu c op = cpu_set_reg c (instr_d op) (of_bool (ltb (rs c op) (rt c op)))

  unfoldable pub op_div : Cpu S → ℕ → Cpu S
  op_div c op = put_hi_lo c (div32 (rs c op) (rt c op)) 37

  unfoldable pub op_divu : Cpu S → ℕ → Cpu S
  op_divu c op = put_hi_lo c (divu32 (rs c op) (rt c op)) 37

  unfoldable pub op_mult : Cpu S → ℕ → Cpu S
  op_mult c op = put_hi_lo c (mult32 (rs c op) (rt c op)) (cpu_multiply_cycles_signed (rs c op))

  unfoldable pub op_multu : Cpu S → ℕ → Cpu S
  op_multu c op = put_hi_lo c (multu32 (rs c op) (rt c op)) (cpu_multiply_cycles_unsigned (rs c op))

  unfoldable pub op_mflo : Cpu S → ℕ → Cpu S
  op_mflo c op = let c = cpu_stall_until_muldiv_complete c in cpu_set_reg c (instr_d op) c.lo

  unfoldable pub op_mfhi : Cpu S → ℕ → Cpu S
  op_mfhi c op = let c = cpu_stall_until_muldiv_complete c in cpu_set_reg c (instr_d op) c.hi

  unfoldable pub op_mtlo : Cpu S → ℕ → Cpu S
  op_mtlo c op = record c { lo = rs c op }

  unfoldable pub op_mthi : Cpu S → ℕ → Cpu S
  op_mthi c op = record c { hi = rs c op }

module _ {S : Type 0} (m : Machine S) where
  -- The end of `op_addi`, `op_add` and `op_sub`: the result, or the overflow exception.
  unfoldable pub set_or_trap : Option ℕ → Cpu S → ℕ → Cpu S
  set_or_trap none c idx = cpu_exception m c exc_overflow
  set_or_trap (some r) c idx = cpu_set_reg c idx r

  unfoldable pub op_addi : Cpu S → ℕ → Cpu S
  unfolding set_or_trap
  op_addi c op = set_or_trap (add_overflow (rs c op) (instr_imm_se op)) c (instr_t op)

  unfoldable pub op_add : Cpu S → ℕ → Cpu S
  unfolding set_or_trap
  op_add c op = set_or_trap (add_overflow (rs c op) (rt c op)) c (instr_d op)

  unfoldable pub op_sub : Cpu S → ℕ → Cpu S
  unfolding set_or_trap
  op_sub c op = set_or_trap (sub_overflow (rs c op) (rt c op)) c (instr_d op)
