-- ===== src/Cpu/Control.antt =====
-- cpu.c: the handlers of jumps and branches, of the coprocessors, and of the traps.
use psx_emulator_em_c.Base.{
  ℕ, ◌+◌, Bool, true, not, ◌&&◌, ◌||◌, ◌==◌, ◌!=◌, if◌then◌else◌, ◌<<◌, ◌>>◌, low_bits, clear_low,
  test_bit, bit_or, pos, is_neg, signed32, ltb_ℤ,
}
use psx_emulator_em_c.Gte.{gte_read_data, gte_read_ctrl, gte_write_data, gte_write_ctrl}
use psx_emulator_em_c.ICache.{cpu_icache_init}
use psx_emulator_em_c.Cpu.Instruction.{
  instr_t, instr_d, instr_imm_se, instr_imm_jump, instr_cop_opcode, exc_syscall, exc_break,
  exc_illegal_instruction,
}
use psx_emulator_em_c.Cpu.State.{
  Machine, Cpu, cpu_reg, cpu_set_reg, cpu_branch, cpu_stall_until_gte_complete,
}
use psx_emulator_em_c.Cpu.Exceptions.{
  cpu_exception, cpu_external_irq_cause, cpu_coprocessor_exception, op_rfe, software_bits,
}
use psx_emulator_em_c.Cpu.Alu.{rs, rt}
use psx_emulator_em_c.Cpu.LoadStore.{delay_load}

-- The cost of a command of the geometry coprocessor.
unfoldable pub gte_command_cycles : ℕ → ℕ
gte_command_cycles cmd =
    let f = low_bits cmd 6 in
    if f == 0x01
    then 15
    else if f == 0x06 || f == 0x10 || f == 0x11 || f == 0x12 || f == 0x29
    then 8
    else if f == 0x0c || f == 0x2e
    then 6
    else if f == 0x13
    then 19
    else if f == 0x14
    then 13
    else if f == 0x16
    then 44
    else if f == 0x1b || f == 0x2a
    then 17
    else if f == 0x1c
    then 11
    else if f == 0x1e
    then 14
    else if f == 0x20
    then 30
    else if f == 0x28 || f == 0x2d || f == 0x3d || f == 0x3e
    then 5
    else if f == 0x30
    then 23
    else if f == 0x3f
    then 39
    else 0

module _ {S : Type 0} where
  abbrev pub jump_to : Cpu S → ℕ → Cpu S
  jump_to c target = record c { next_pc = target; branch = true }

  unfoldable pub op_j : Cpu S → ℕ → Cpu S
  op_j c op = jump_to c (clear_low c.pc 28 + instr_imm_jump op << 2)

  unfoldable pub op_jal : Cpu S → ℕ → Cpu S
  unfolding op_j
  op_jal c op = op_j (cpu_set_reg c 31 c.next_pc) op

  unfoldable pub op_jr : Cpu S → ℕ → Cpu S
  op_jr c op = jump_to c (rs c op)

  unfoldable pub op_jalr : Cpu S → ℕ → Cpu S
  op_jalr c op = jump_to (cpu_set_reg c (instr_d op) c.next_pc) (rs c op)

  abbrev pub branch_if : Bool → Cpu S → ℕ → Cpu S
  branch_if test c op = if test then cpu_branch c (instr_imm_se op) else c

  unfoldable pub op_beq : Cpu S → ℕ → Cpu S
  op_beq c op = branch_if (rs c op == rt c op) c op

  unfoldable pub op_bne : Cpu S → ℕ → Cpu S
  op_bne c op = branch_if (rs c op != rt c op) c op

  unfoldable pub op_bgtz : Cpu S → ℕ → Cpu S
  op_bgtz c op = branch_if (ltb_ℤ (pos 0) (signed32 (rs c op))) c op

  unfoldable pub op_blez : Cpu S → ℕ → Cpu S
  op_blez c op = branch_if (not (ltb_ℤ (pos 0) (signed32 (rs c op)))) c op

  -- Bit 16 selects `bgez`, and bits 17 to 20 the link.
  unfoldable pub op_bxx : Cpu S → ℕ → Cpu S
  op_bxx c op =
      let test =
        if test_bit op 16 then not (is_neg (signed32 (rs c op))) else is_neg (signed32 (rs c op)) in
      let c' = if low_bits (op >> 17) 4 == 0x08 then cpu_set_reg c 31 c.next_pc else c in
      branch_if test c' op

  -- `entering_isolation` empties the instruction cache.
  unfoldable pub op_mtc0 : Cpu S → ℕ → Cpu S
  op_mtc0 c op =
      let v = rt c op in
      if instr_d op == 12
      then (let c' = record c { sr = v } in
          if not (test_bit c.sr 16) && test_bit v 16
          then record c' { icache = cpu_icache_init }
          else c')
      else if instr_d op == 13
      then record c { cause = clear_low c.cause 10 + software_bits v + low_bits c.cause 8 }
      else c

module _ {S : Type 0} (m : Machine S) where
  -- The `switch` of `op_mfc0`; all other registers read as 0.
  unfoldable pub cop0_value : Cpu S → ℕ → ℕ
  cop0_value c reg =
      if reg == 8
      then c.badvaddr
      else if reg == 12
      then c.sr
      else if reg == 13
      then bit_or c.cause (cpu_external_irq_cause m c)
      else if reg == 14
      then c.epc
      else if reg == 15
      then 2
      else 0

  unfoldable pub op_mfc0 : Cpu S → ℕ → Cpu S
  unfolding cop0_value
  op_mfc0 c op = delay_load c (instr_t op) (cop0_value c (instr_d op))

  unfoldable pub op_cop0 : Cpu S → ℕ → Cpu S
  unfolding op_mfc0
  op_cop0 c op =
      let f = instr_cop_opcode op in
      if f == 0b00100
      then op_mtc0 c op
      else if f == 0b00000
      then op_mfc0 c op
      else if f == 0b10000
      then op_rfe m c op
      else cpu_exception m c exc_illegal_instruction

  unfoldable pub op_cop2 : Cpu S → ℕ → Cpu S
  op_cop2 c op =
      let f = instr_cop_opcode op in
      let reg = instr_d op in
      let c = cpu_stall_until_gte_complete c in
      if test_bit f 4
      then (let cmd = low_bits op 25 in
          record c { gte = m.gte_execute c.gte cmd; gte_busy_cycles = gte_command_cycles cmd })
      else if f == 0b00000
      then delay_load c (instr_t op) (gte_read_data c.gte reg)
      else if f == 0b00010
      then delay_load c (instr_t op) (gte_read_ctrl c.gte reg)
      else if f == 0b00100
      then record c { gte = gte_write_data c.gte reg (rt c op) }
      else if f == 0b00110
      then record c { gte = gte_write_ctrl c.gte reg (rt c op) }
      else c

  unfoldable pub op_syscall : Cpu S → ℕ → Cpu S
  op_syscall c op =
      let code = cpu_reg c 4 in
      if c.hle_bios_vectors && (code == 1 || code == 2)
      then cpu_set_reg c 2 0
      else cpu_exception m c exc_syscall

  unfoldable pub op_break : Cpu S → ℕ → Cpu S
  op_break c op = cpu_exception m c exc_break

  unfoldable pub op_illegal : Cpu S → ℕ → Cpu S
  op_illegal c op = cpu_exception m c exc_illegal_instruction

  -- Opcodes 0x11 and 0x13: nothing happens if bit `enable` of the status is set.
  unfoldable pub op_absent_cop : ℕ → ℕ → Cpu S → Cpu S
  op_absent_cop enable coprocessor c =
      if not (test_bit c.sr enable) then cpu_coprocessor_exception m c coprocessor else c

  -- Opcodes 0x12, 0x32 and 0x3a: bit 30 of the status enables the geometry coprocessor.
  unfoldable pub when_cop2 : Cpu S → Cpu S → Cpu S
  when_cop2 c done = if test_bit c.sr 30 then done else cpu_coprocessor_exception m c 2
