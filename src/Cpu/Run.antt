-- ===== src/Cpu/Run.antt =====
-- cpu.c: `cpu_run_next_instruction`, one step of the core.
use psx_emulator_em_c.Base.{ℕ, ◌%◌, false, not, ◌&&◌, ◌!=◌, if◌then◌else◌, add32}
use psx_emulator_em_c.CpuTiming.{cpu_instruction_base_cycles}
use psx_emulator_em_c.Cpu.Instruction.{exc_interrupt, exc_load_address_error}
use psx_emulator_em_c.Cpu.State.{
  Machine, Cpu, cpu_reg, cpu_set_reg, cpu_is_bios_vector, cpu_finish_instruction_cycles,
}
use psx_emulator_em_c.Cpu.Memory.{cpu_fetch32}
use psx_emulator_em_c.Cpu.Exceptions.{cpu_exception, cpu_irq_enabled, address_error}
use psx_emulator_em_c.Cpu.Decode.{decode_and_execute}

module _ {S : Type 0} where
  -- The load of the instruction before reaches its register.
  unfoldable pub commit_load : Cpu S → Cpu S
  commit_load c = record (cpu_set_reg c c.load_reg c.load_val) { load_reg = 0; load_val = 0 }

  -- `memcpy(cpu->regs, cpu->out_regs, …)`.
  unfoldable pub retire : Cpu S → Cpu S
  retire c = record c { regs = c.out_regs }

  -- A call of a BIOS vector that is emulated: it returns 0 at once.
  unfoldable pub hle_call : Cpu S → Cpu S
  hle_call c =
      let ra = cpu_reg c 31 in
      let c = cpu_set_reg (commit_load c) 2 0 in
      retire (record c { pc = ra; next_pc = add32 ra 4; delay_slot = false; branch = false })

  -- The core as the handler of `op` finds it: the program counters have moved on, and the pending
  -- load and branch have been taken over.
  unfoldable pub before_execute : Cpu S → Cpu S
  before_execute c =
      let c =
        commit_load (record c { pc = c.next_pc; next_pc = add32 c.next_pc 4; extra_cycles = 0 }) in
      record c { delay_slot = c.branch; branch = false }

module _ {S : Type 0} (m : Machine S) where
  unfoldable pub take_interrupt : Cpu S → Cpu S
  take_interrupt c = cpu_exception m (record c { delay_slot = false; branch = false }) exc_interrupt

  -- The rest of the step once the instruction word has been fetched.
  unfoldable pub run_instruction : Cpu S → ℕ → ℕ × Cpu S
  run_instruction c op =
      cpu_finish_instruction_cycles (retire (decode_and_execute m (before_execute c) op))
        (cpu_instruction_base_cycles op)

  -- The cycles consumed and the new state.
  unfoldable pub cpu_run_next_instruction : Cpu S → ℕ × Cpu S
  cpu_run_next_instruction c =
      let c = record c { current_pc = c.pc } in
      if not c.branch && cpu_irq_enabled m c
      then (2, take_interrupt c)
      else if c.current_pc % 4 != 0
      then (2, address_error m c c.current_pc exc_load_address_error)
      else if c.hle_bios_vectors && cpu_is_bios_vector c.current_pc
      then (2, hle_call c)
      else let (op, c) = cpu_fetch32 m c c.pc in run_instruction c op
