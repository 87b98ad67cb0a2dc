-- ===== src/Cpu/Invariant/ControlKeeps.antt =====
-- Jumps, branches, traps and coprocessor instructions keep the core well-formed.
use psx_emulator_em_c.Base.{ℕ, ◌^◌, arith, Bool, low_bits, bit_or-lt}
use psx_emulator_em_c.Cpu.Instruction.{
  instr_t, instr_d, exc_syscall, exc_break, exc_illegal_instruction, exc_coprocessor_error,
}
use psx_emulator_em_c.Cpu.State.{Machine, Cpu}
use psx_emulator_em_c.Cpu.Exceptions.{
  cpu_external_irq_cause, cpu_coprocessor_exception, op_rfe, pop_mode,
}
use psx_emulator_em_c.Cpu.Control.{
  gte_command_cycles, jump_to, branch_if, cop0_value, op_j, op_jal, op_jr, op_jalr, op_beq, op_bne,
  op_bgtz, op_blez, op_bxx, op_mtc0, op_mfc0, op_cop0, op_cop2, op_syscall, op_break, op_illegal,
  op_absent_cop, when_cop2,
}
use psx_emulator_em_c.Cpu.Invariant.Defs.{
  IsValid, IsMachine, cpu_reg-lt, cpu_set_reg-IsValid, cpu_branch-IsValid, stall_gte-IsValid,
  cpu_exception-IsValid, cpu_exception_with_ce-IsValid,
}
use psx_emulator_em_c.Gte.Words.{IsWord}
use psx_emulator_em_c.Gte.Words.{
  gte_write_data-IsGte, gte_write_ctrl-IsGte, gte_read_data-lt, gte_read_ctrl-lt,
}
use psx_emulator_em_c.Cpu.Invariant.MemoryKeeps.{pick-IsValid, delay_load-IsValid, put_gte-IsValid}

module _ {S : Type 0} {c : Cpu S} (v : IsValid c) where
  jump_to-IsValid : (target : ℕ) → IsWord target → IsValid (jump_to c target)
  jump_to-IsValid target w = assumption (w)

  put_sr-IsValid : (sr : ℕ) → IsWord sr → IsValid (record c { sr = sr })
  put_sr-IsValid sr w = assumption (w)

  branch_if-IsValid : (test : Bool) (op : ℕ) → IsValid (branch_if test c op)
  branch_if-IsValid test op = pick-IsValid test (cpu_branch-IsValid v _) v

  pub op_j-IsValid : (op : ℕ) → IsValid (op_j c op)
  unfolding op_j
  op_j-IsValid op = jump_to-IsValid _ (omega arith)

module _ {S : Type 0} {c : Cpu S} (v : IsValid c) (op : ℕ) where
  pub op_jal-IsValid : IsValid (op_jal c op)
  unfolding op_jal
  op_jal-IsValid = op_j-IsValid (cpu_set_reg-IsValid v 31 _ v.next_pc_word) op

  pub op_jr-IsValid : IsValid (op_jr c op)
  unfolding op_jr
  op_jr-IsValid = jump_to-IsValid v _ (cpu_reg-lt v _)

  pub op_jalr-IsValid : IsValid (op_jalr c op)
  unfolding op_jalr
  op_jalr-IsValid =
      jump_to-IsValid (cpu_set_reg-IsValid v (instr_d op) _ v.next_pc_word) _ (cpu_reg-lt v _)

  pub op_beq-IsValid : IsValid (op_beq c op)
  unfolding op_beq
  op_beq-IsValid = branch_if-IsValid v _ op

  pub op_bne-IsValid : IsValid (op_bne c op)
  unfolding op_bne
  op_bne-IsValid = branch_if-IsValid v _ op

  pub op_bgtz-IsValid : IsValid (op_bgtz c op)
  unfolding op_bgtz
  op_bgtz-IsValid = branch_if-IsValid v _ op

  pub op_blez-IsValid : IsValid (op_blez c op)
  unfolding op_blez
  op_blez-IsValid = branch_if-IsValid v _ op

  pub op_bxx-IsValid : IsValid (op_bxx c op)
  unfolding op_bxx
  op_bxx-IsValid =
      branch_if-IsValid (pick-IsValid _ (cpu_set_reg-IsValid v 31 _ v.next_pc_word) v) _ op

  pub op_mtc0-IsValid : IsValid (op_mtc0 c op)
  unfolding op_mtc0
  op_mtc0-IsValid = ground (arith, cpu_reg-lt v (instr_t op))

module _ {S : Type 0} (m : Machine S) {c : Cpu S} (v : IsValid c) (op : ℕ) where
  cop0_value-lt : (reg : ℕ) → IsWord (cop0_value m c reg)
  unfolding cop0_value cpu_external_irq_cause
  cop0_value-lt reg = ground (
    arith,
    bit_or-lt 32 c.cause (2 ^ 10) v.cause_word (omega arith),
    bit_or-lt 32 c.cause 0 v.cause_word (omega arith),
  )

  op_mfc0-IsValid : IsValid (op_mfc0 m c op)
  unfolding op_mfc0
  op_mfc0-IsValid = delay_load-IsValid v (instr_t op) _ (omega arith) (cop0_value-lt (instr_d op))

  op_rfe-IsValid : IsValid (op_rfe m c op)
  unfolding op_rfe
  op_rfe-IsValid =
      pick-IsValid _ (cpu_exception-IsValid m v exc_illegal_instruction)
        (put_sr-IsValid v (pop_mode c.sr) (omega arith))

  pub op_cop0-IsValid : IsValid (op_cop0 m c op)
  unfolding op_cop0
  op_cop0-IsValid = pick-IsValid _ (op_mtc0-IsValid v op) (
      pick-IsValid _ op_mfc0-IsValid
        (pick-IsValid _ op_rfe-IsValid (cpu_exception-IsValid m v exc_illegal_instruction)))

  pub op_syscall-IsValid : IsValid (op_syscall m c op)
  unfolding op_syscall
  op_syscall-IsValid =
      pick-IsValid _ (cpu_set_reg-IsValid v 2 0 (omega arith))
        (cpu_exception-IsValid m v exc_syscall)

  pub op_break-IsValid : IsValid (op_break m c op)
  unfolding op_break
  op_break-IsValid = cpu_exception-IsValid m v exc_break

  pub op_illegal-IsValid : IsValid (op_illegal m c op)
  unfolding op_illegal
  op_illegal-IsValid = cpu_exception-IsValid m v exc_illegal_instruction

module _ {S : Type 0} (m : Machine S) {c : Cpu S} (v : IsValid c) where
  pub cpu_coprocessor_exception-IsValid : (n : ℕ) → IsValid (cpu_coprocessor_exception m c n)
  unfolding cpu_coprocessor_exception
  cpu_coprocessor_exception-IsValid n = cpu_exception_with_ce-IsValid m v exc_coprocessor_error n

  pub op_absent_cop-IsValid : (enable n : ℕ) → IsValid (op_absent_cop m enable n c)
  unfolding op_absent_cop
  op_absent_cop-IsValid enable n = pick-IsValid _ (cpu_coprocessor_exception-IsValid n) v

  pub when_cop2-IsValid : {d : Cpu S} → IsValid d → IsValid (when_cop2 m c d)
  unfolding when_cop2
  when_cop2-IsValid w = pick-IsValid _ w (cpu_coprocessor_exception-IsValid 2)

command-IsValid :
    {S : Type 0} (m : Machine S)
    → IsMachine m
    → {c : Cpu S} → IsValid c
    → (cmd : ℕ)
    → IsValid (record c { gte = m.gte_execute c.gte cmd; gte_busy_cycles = gte_command_cycles cmd })
command-IsValid m lawful {c} v cmd = assumption (lawful.execute_gte c.gte cmd v.gte_valid)

pub op_cop2-IsValid :
    {S : Type 0} {m : Machine S}
    → IsMachine m
    → {c : Cpu S} → IsValid c
    → (op : ℕ) → IsValid (op_cop2 m c op)
unfolding op_cop2
op_cop2-IsValid {m = m} lawful {c} v op =
    let u = stall_gte-IsValid v in
    let g = u.gte_valid in
    let t = instr_t op in
    pick-IsValid _ (command-IsValid m lawful u (low_bits op 25)) (
      pick-IsValid _ (delay_load-IsValid u t _ (omega arith) (gte_read_data-lt g _)) (
        pick-IsValid _ (delay_load-IsValid u t _ (omega arith) (gte_read_ctrl-lt g _)) (
          pick-IsValid _ (put_gte-IsValid u (gte_write_data-IsGte g _ _ (cpu_reg-lt u _)))
            (pick-IsValid _ (put_gte-IsValid u (gte_write_ctrl-IsGte g _ _ (cpu_reg-lt u _))) u))))
