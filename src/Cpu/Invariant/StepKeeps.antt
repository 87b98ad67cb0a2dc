-- ===== src/Cpu/Invariant/StepKeeps.antt =====
-- Every instruction, and every step of the core, keeps it well-formed.
use psx_emulator_em_c.Base.{ℕ, ◌%◌, ◌^◌, ◌<◌, arith, Bool, false, not, ◌&&◌, ◌!=◌}
use psx_emulator_em_c.Cpu.Instruction.{exc_interrupt, exc_load_address_error}
use psx_emulator_em_c.Cpu.State.{Machine, Cpu, cpu_reg, cpu_is_bios_vector}
use psx_emulator_em_c.Cpu.Memory.{cpu_fetch32}
use psx_emulator_em_c.Cpu.Exceptions.{cpu_irq_enabled}
use psx_emulator_em_c.Cpu.Decode.{
  Handler, execute, decode, decode_and_execute, sll, srl, sra, sllv, srlv, srav, jr, jalr, syscall,
  break, mfhi, mthi, mflo, mtlo, mult, multu, div, divu, add, addu, sub, subu, and, or, xor, nor,
  slt, sltu, bxx, j, jal, beq, bne, blez, bgtz, addi, addiu, slti, sltiu, andi, ori, xori, lui,
  cop0, cop1, cop2, cop3, lb, lh, lwl, lw, lbu, lhu, lwr, sb, sh, swl, sw, swr, lwc2, swc2,
  no_coprocessor, illegal,
}
use psx_emulator_em_c.Cpu.Run.{
  commit_load, retire, hle_call, before_execute, take_interrupt, run_instruction,
  cpu_run_next_instruction,
}
use psx_emulator_em_c.Cpu.Invariant.Defs.{
  IsValid, IsMachine, cpu_reg-lt, cpu_set_reg-IsValid, finish-IsValid, cpu_exception-IsValid,
  address_error-IsValid,
}
use psx_emulator_em_c.Cpu.Invariant.AluKeeps.{
  op_lui-IsValid, op_ori-IsValid, op_andi-IsValid, op_xori-IsValid, op_and-IsValid, op_or-IsValid,
  op_xor-IsValid, op_nor-IsValid, op_sll-IsValid, op_srl-IsValid, op_sra-IsValid, op_sllv-IsValid,
  op_srlv-IsValid, op_srav-IsValid, op_addiu-IsValid, op_addu-IsValid, op_subu-IsValid,
  op_slti-IsValid, op_sltiu-IsValid, op_slt-IsValid, op_sltu-IsValid, op_div-IsValid,
  op_divu-IsValid, op_mult-IsValid, op_multu-IsValid, op_mflo-IsValid, op_mfhi-IsValid,
  op_mtlo-IsValid, op_mthi-IsValid, op_addi-IsValid, op_add-IsValid, op_sub-IsValid,
}
use psx_emulator_em_c.Cpu.Invariant.MemoryKeeps.{
  op_lw-IsValid, op_lh-IsValid, op_lhu-IsValid, op_lb-IsValid, op_lbu-IsValid, op_lwl-IsValid,
  op_lwr-IsValid, op_sw-IsValid, op_sh-IsValid, op_sb-IsValid, op_swl-IsValid, op_swr-IsValid,
  op_lwc2-IsValid, op_swc2-IsValid, cpu_fetch32-IsValid, Leaves, leaves, pick-Leaves,
  delay_load-IsValid,
}
use psx_emulator_em_c.Cpu.Invariant.ControlKeeps.{
  op_j-IsValid, op_jal-IsValid, op_jr-IsValid, op_jalr-IsValid, op_beq-IsValid, op_bne-IsValid,
  op_bgtz-IsValid, op_blez-IsValid, op_bxx-IsValid, op_cop0-IsValid, op_cop2-IsValid,
  op_syscall-IsValid, op_break-IsValid, op_illegal-IsValid, op_absent_cop-IsValid,
  when_cop2-IsValid, cpu_coprocessor_exception-IsValid,
}

module _ {S : Type 0} {m : Machine S} (lawful : IsMachine m) {c : Cpu S} (v : IsValid c) where
  pub execute-IsValid : (h : Handler) (op : ℕ) → IsValid (execute m h c op)
  unfolding execute
  execute-IsValid sll op = op_sll-IsValid v op
  execute-IsValid srl op = op_srl-IsValid v op
  execute-IsValid sra op = op_sra-IsValid v op
  execute-IsValid sllv op = op_sllv-IsValid v op
  execute-IsValid srlv op = op_srlv-IsValid v op
  execute-IsValid srav op = op_srav-IsValid v op
  execute-IsValid jr op = op_jr-IsValid v op
  execute-IsValid jalr op = op_jalr-IsValid v op
  execute-IsValid syscall op = op_syscall-IsValid m v op
  execute-IsValid break op = op_break-IsValid m v op
  execute-IsValid mfhi op = op_mfhi-IsValid v op
  execute-IsValid mthi op = op_mthi-IsValid v op
  execute-IsValid mflo op = op_mflo-IsValid v op
  execute-IsValid mtlo op = op_mtlo-IsValid v op
  execute-IsValid mult op = op_mult-IsValid v op
  execute-IsValid multu op = op_multu-IsValid v op
  execute-IsValid div op = op_div-IsValid v op
  execute-IsValid divu op = op_divu-IsValid v op
  execute-IsValid add op = op_add-IsValid m v op
  execute-IsValid addu op = op_addu-IsValid v op
  execute-IsValid sub op = op_sub-IsValid m v op
  execute-IsValid subu op = op_subu-IsValid v op
  execute-IsValid and op = op_and-IsValid v op
  execute-IsValid or op = op_or-IsValid v op
  execute-IsValid xor op = op_xor-IsValid v op
  execute-IsValid nor op = op_nor-IsValid v op
  execute-IsValid slt op = op_slt-IsValid v op
  execute-IsValid sltu op = op_sltu-IsValid v op
  execute-IsValid bxx op = op_bxx-IsValid v op
  execute-IsValid j op = op_j-IsValid v op
  execute-IsValid jal op = op_jal-IsValid v op
  execute-IsValid beq op = op_beq-IsValid v op
  execute-IsValid bne op = op_bne-IsValid v op
  execute-IsValid blez op = op_blez-IsValid v op
  execute-IsValid bgtz op = op_bgtz-IsValid v op
  execute-IsValid addi op = op_addi-IsValid m v op
  execute-IsValid addiu op = op_addiu-IsValid v op
  execute-IsValid slti op = op_slti-IsValid v op
  execute-IsValid sltiu op = op_sltiu-IsValid v op
  execute-IsValid andi op = op_andi-IsValid v op
  execute-IsValid ori op = op_ori-IsValid v op
  execute-IsValid xori op = op_xori-IsValid v op
  execute-IsValid lui op = op_lui-IsValid v op
  execute-IsValid cop0 op = op_cop0-IsValid m v op
  execute-IsValid cop1 op = op_absent_cop-IsValid m v 29 1
  execute-IsValid cop2 op = when_cop2-IsValid m v (op_cop2-IsValid lawful v op)
  execute-IsValid cop3 op = op_absent_cop-IsValid m v 31 3
  execute-IsValid lb op = op_lb-IsValid lawful v op
  execute-IsValid lh op = op_lh-IsValid lawful v op
  execute-IsValid lwl op = op_lwl-IsValid lawful v op
  execute-IsValid lw op = op_lw-IsValid lawful v op
  execute-IsValid lbu op = op_lbu-IsValid lawful v op
  execute-IsValid lhu op = op_lhu-IsValid lawful v op
  execute-IsValid lwr op = op_lwr-IsValid lawful v op
  execute-IsValid sb op = op_sb-IsValid lawful v op
  execute-IsValid sh op = op_sh-IsValid lawful v op
  execute-IsValid swl op = op_swl-IsValid lawful v op
  execute-IsValid sw op = op_sw-IsValid lawful v op
  execute-IsValid swr op = op_swr-IsValid lawful v op
  execute-IsValid lwc2 op = when_cop2-IsValid m v (op_lwc2-IsValid lawful v op)
  execute-IsValid swc2 op = when_cop2-IsValid m v (op_swc2-IsValid lawful v op)
  execute-IsValid (no_coprocessor n) op = cpu_coprocessor_exception-IsValid m v n
  execute-IsValid illegal op = op_illegal-IsValid m v op

  decode_and_execute-IsValid : (op : ℕ) → IsValid (decode_and_execute m c op)
  unfolding decode_and_execute
  decode_and_execute-IsValid op = execute-IsValid (decode op) op

module _ {S : Type 0} {c : Cpu S} (v : IsValid c) where
  commit_load-IsValid : IsValid (commit_load c)
  unfolding commit_load
  commit_load-IsValid =
      delay_load-IsValid (cpu_set_reg-IsValid v c.load_reg c.load_val v.load_val_word) 0 0
        (omega arith) (omega arith)

  retire-IsValid : IsValid (retire c)
  unfolding retire
  retire-IsValid = assumption

  flags-IsValid : (slot branch : Bool) → IsValid (record c { delay_slot = slot; branch = branch })
  flags-IsValid slot branch = assumption

  counters-IsValid :
      (pc next_pc : ℕ)
      → pc < 2 ^ 32
      → next_pc < 2 ^ 32
      → IsValid (record c { pc = pc; next_pc = next_pc })
  counters-IsValid pc next_pc p n = assumption (p, n)

  extra-IsValid : (n : ℕ) → IsValid (record c { extra_cycles = n })
  extra-IsValid n = assumption

module _ {S : Type 0} {c : Cpu S} (v : IsValid c) where
  hle_call-IsValid : IsValid (hle_call c)
  unfolding hle_call
  hle_call-IsValid =
      let w = cpu_set_reg-IsValid (commit_load-IsValid v) 2 0 (omega arith) in
      retire-IsValid (
        flags-IsValid (counters-IsValid w (cpu_reg c 31) _ (cpu_reg-lt v 31) (omega arith)) false
          false)

  before_execute-IsValid : IsValid (before_execute c)
  unfolding before_execute
  before_execute-IsValid =
      flags-IsValid
        (commit_load-IsValid
          (extra-IsValid (counters-IsValid v c.next_pc _ v.next_pc_word (omega arith)) 0))
        _ false

module _ {S : Type 0} {m : Machine S} (lawful : IsMachine m) {c : Cpu S} (v : IsValid c) where
  run_instruction-IsValid : (op : ℕ) → IsValid (run_instruction m c op).1
  unfolding run_instruction
  run_instruction-IsValid op =
      finish-IsValid
        (retire-IsValid (decode_and_execute-IsValid lawful (before_execute-IsValid v) op)) _

  take_interrupt-IsValid : IsValid (take_interrupt m c)
  unfolding take_interrupt
  take_interrupt-IsValid = cpu_exception-IsValid m (flags-IsValid v false false) exc_interrupt

step-Leaves :
    {S : Type 0} {m : Machine S}
    → IsMachine m
    → {c : Cpu S} → IsValid c
    → Leaves (cpu_run_next_instruction m c)
unfolding cpu_run_next_instruction
step-Leaves {S} {m} lawful {c} v =
    let d = record c { current_pc = c.pc } in
    let here : IsValid d = assumption in
    pick-Leaves (not c.branch && cpu_irq_enabled m d)
      (leaves 2 (take_interrupt-IsValid lawful here))
      (pick-Leaves (c.pc % 4 != 0)
        (leaves 2 (address_error-IsValid m here v.pc_word exc_load_address_error))
        (pick-Leaves (c.hle_bios_vectors && cpu_is_bios_vector c.pc)
          (leaves 2 (hle_call-IsValid here))
          (run_instruction-Leaves (cpu_fetch32 m d c.pc) (cpu_fetch32-IsValid m here c.pc))))
  where
    run_instruction-Leaves : (r : ℕ × Cpu S) → IsValid r.1 → Leaves (run_instruction m r.1 r.0)
    run_instruction-Leaves r u = record { valid = run_instruction-IsValid lawful u r.0 }

-- If the interconnect answers each load within its width, and a command leaves the geometry
-- coprocessor with two files of 32 words, then a step of `cpu_run_next_instruction` from a
-- well-formed core gives a well-formed core, whatever the instruction: both register files
-- have 32 words and a register 0 that reads 0, the pending load names one of the 32, the
-- coprocessor has its two files, and the program counters, the pending value, the status,
-- CAUSE, EPC, BADVADDR, HI and LO are words.
pub cpu_run_next_instruction-IsValid :
    {S : Type 0} {m : Machine S}
    → IsMachine m
    → {c : Cpu S} → IsValid c
    → IsValid (cpu_run_next_instruction m c).1
cpu_run_next_instruction-IsValid lawful v = (step-Leaves lawful v).valid
