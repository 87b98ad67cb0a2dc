-- ===== src/Cpu/DelaySlot.antt =====
-- cpu.c: a jump, its delay slot, and an interrupt that is requested meanwhile.
use psx_emulator_em_c.Base.{ℕ, ◌+◌, ◌%◌, ◌≡◌, false, not, ◌&&◌, ◌!=◌, clear_low, ◌<<◌}
use psx_emulator_em_c.Cpu.Instruction.{instr_imm_jump}
use psx_emulator_em_c.Cpu.State.{Machine, Cpu, cpu_is_bios_vector}
use psx_emulator_em_c.Cpu.Memory.{cpu_fetch32}
use psx_emulator_em_c.Cpu.Exceptions.{cpu_irq_enabled}
use psx_emulator_em_c.Cpu.ExceptionLaws.{sampled}

module _ {S : Type 0} (m : Machine S) where
  -- What a fetch leaves as it is.
  abbrev Keeps : Cpu S → Cpu S → Type 0
  Keeps c d =
      (d.next_pc ≡ c.next_pc) × (d.branch ≡ c.branch) × (d.hle_bios_vectors ≡ c.hle_bios_vectors)

  -- The step of this core runs an instruction: no interrupt, a fault or an emulated call comes first.
  abbrev Runs : Cpu S → Type 0
  Runs c =
      ((not c.branch && cpu_irq_enabled m (sampled m c)) ≡ false)
      × ((c.pc % 4 != 0) ≡ false)
      × ((c.hle_bios_vectors && cpu_is_bios_vector c.pc) ≡ false)

  -- The word that the step fetches.
  abbrev pub fetched : Cpu S → ℕ
  fetched c = (cpu_fetch32 m (sampled m c) c.pc).0

  -- Both steps.
  target_of : Cpu S → ℕ
  target_of c = clear_low c.next_pc 28 + instr_imm_jump (fetched c) << 2
