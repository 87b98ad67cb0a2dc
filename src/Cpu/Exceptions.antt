-- ===== src/Cpu/Exceptions.antt =====
-- cpu.c: interrupt causes, entry into an exception, and the return from one.
use psx_emulator_em_c.Base.{
  ℕ, ◌+◌, ◌^◌, Bool, true, false, ◌&&◌, ◌!=◌, if◌then◌else◌, sub32, add32, ◌<<◌, ◌>>◌, low_bits,
  clear_low, test_bit, set_bit, bit_and,
}
use psx_emulator_em_c.Irq.{irq_pending}
use psx_emulator_em_c.Cpu.Instruction.{
  Exception, code, exc_coprocessor_error, exc_illegal_instruction,
}
use psx_emulator_em_c.Cpu.State.{Machine, Cpu}

abbrev pub is_coprocessor_error : Exception → Bool
is_coprocessor_error exc_coprocessor_error = true
is_coprocessor_error _ = false

-- `x & 0x300`, the software interrupt bits.
abbrev pub software_bits : ℕ → ℕ
software_bits x = low_bits (x >> 8) 2 << 8

-- The three-deep stack of mode bits: an exception pushes, `rfe` pops.
abbrev pub push_mode : ℕ → ℕ
push_mode sr = clear_low sr 6 + low_bits (low_bits sr 6 << 2) 6

abbrev pub pop_mode : ℕ → ℕ
pop_mode sr = clear_low sr 6 + low_bits sr 6 >> 2

abbrev pub handler_address : ℕ → ℕ
handler_address sr = if test_bit sr 22 then 0xbfc0_0180 else 0x8000_0080

module _ {S : Type 0} (m : Machine S) where
  unfoldable pub cpu_external_irq_cause : Cpu S → ℕ
  cpu_external_irq_cause c = if irq_pending (m.irq c.inter) then 2 ^ 10 else 0

  unfoldable pub cpu_pending_irq_cause : Cpu S → ℕ
  unfolding cpu_external_irq_cause
  cpu_pending_irq_cause c = software_bits c.cause + cpu_external_irq_cause c

  unfoldable pub cpu_irq_enabled : Cpu S → Bool
  unfolding cpu_pending_irq_cause
  cpu_irq_enabled c = test_bit c.sr 0 && bit_and c.sr (cpu_pending_irq_cause c) != 0

  -- The cause register of an exception, before the branch delay bit.
  abbrev pub cause_word : Cpu S → Exception → ℕ → ℕ
  cause_word c cause coprocessor =
      software_bits c.cause
      + code cause << 2
      + cpu_external_irq_cause c
      + (if is_coprocessor_error cause then low_bits coprocessor 2 << 28 else 0)

  unfoldable pub cpu_exception_with_ce : Cpu S → Exception → ℕ → Cpu S
  unfolding cpu_external_irq_cause
  cpu_exception_with_ce c cause coprocessor =
      let handler = handler_address c.sr in
      record c {
        sr = push_mode c.sr;
        cause =
            (if c.delay_slot
              then set_bit (cause_word c cause coprocessor) 31
              else cause_word c cause coprocessor);
        epc = if c.delay_slot then sub32 c.current_pc 4 else c.current_pc;
        pc = handler;
        next_pc = add32 handler 4;
      }

  unfoldable pub cpu_exception : Cpu S → Exception → Cpu S
  unfolding cpu_exception_with_ce
  cpu_exception c cause = cpu_exception_with_ce c cause 0

  unfoldable pub cpu_coprocessor_exception : Cpu S → ℕ → Cpu S
  unfolding cpu_exception_with_ce
  cpu_coprocessor_exception c coprocessor =
      cpu_exception_with_ce c exc_coprocessor_error coprocessor

  -- `badvaddr` is set, then the exception is taken.
  unfoldable pub address_error : Cpu S → ℕ → Exception → Cpu S
  unfolding cpu_exception
  address_error c addr cause = cpu_exception (record c { badvaddr = addr }) cause

  unfoldable pub op_rfe : Cpu S → ℕ → Cpu S
  unfolding cpu_exception
  op_rfe c op =
      if low_bits op 6 != 0b010000
      then cpu_exception c exc_illegal_instruction
      else record c { sr = pop_mode c.sr }
