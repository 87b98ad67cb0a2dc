-- ===== src/Cpu/ExceptionLaws.antt =====
-- cpu.c: what an exception leaves behind, what `rfe` restores, and when interrupts are taken.
use psx_emulator_em_c.Base.{
  ℕ, ◌+◌, ◌%◌, ◌^◌, ◌<◌, ◌≡◌, ◌≢◌, refl, arith, true, false, not, ◌&&◌, if◌then◌else◌, ◌!=◌,
  low_bits, bit, test_bit, of_bool, ◌>>◌, sub32,
}
use psx_emulator_em_c.Cpu.Instruction.{Exception, code, exc_interrupt, exc_load_address_error}
use psx_emulator_em_c.Cpu.State.{Machine, Cpu, cpu_is_bios_vector}
use psx_emulator_em_c.Cpu.Memory.{cpu_fetch32}
use psx_emulator_em_c.Irq.{irq_pending}
use psx_emulator_em_c.Cpu.Exceptions.{
  cpu_exception_with_ce, is_coprocessor_error, cpu_external_irq_cause, cause_word, cpu_irq_enabled,
  cpu_exception, address_error, op_rfe,
}
use psx_emulator_em_c.Cpu.Invariant.{code-lt}
use psx_emulator_em_c.Cpu.Run.{cpu_run_next_instruction, run_instruction, take_interrupt}

module _ {S : Type 0} (m : Machine S) where
  cause_bits :
      (c : Cpu S) (e : Exception) (n : ℕ)
      → let w = cause_word m c e n in
        (w < 2 ^ 31)
        × (low_bits (w >> 2) 5 ≡ code e)
        × (low_bits w 2 ≡ 0)
        × (low_bits (w >> 8) 2 ≡ low_bits (c.cause >> 8) 2)
        × (bit w 10 ≡ of_bool (irq_pending (m.irq c.inter)))
        × (low_bits (w >> 28) 2 ≡ (if is_coprocessor_error e then low_bits n 2 else 0))
        × (bit w 7 ≡ 0)
        × (low_bits (w >> 11) 17 ≡ 0)
        × (bit w 30 ≡ 0)
  unfolding cpu_external_irq_cause
  cause_bits c e n = ground (arith, code-lt e)

  -- Entry into an exception, on both sides of a branch delay: EPC is the instruction at fault, or
  -- the branch before it with bit 31 of CAUSE set; the exception code stands in bits 2 to 6 of
  -- CAUSE; the core goes on at the handler that bit 22 of the status selects, in kernel mode with
  -- interrupts off; the two younger mode pairs of the status become the two older ones, and its
  -- higher bits stay. In CAUSE, bits 8 and 9, the software interrupts, stay; bit 10 tells whether the
  -- interrupt controller has a request; bits 28 and 29 have the coprocessor's number if the exception
  -- is a coprocessor error, and are 0 otherwise; all other bits are 0.
  pub cpu_exception_with_ce_lem :
      (c : Cpu S) (e : Exception) (n : ℕ)
      → let d = cpu_exception_with_ce m c e n in
        (d.epc ≡ (if c.delay_slot then sub32 c.current_pc 4 else c.current_pc))
        × (bit d.cause 31 ≡ of_bool c.delay_slot)
        × (low_bits (d.cause >> 2) 5 ≡ code e)
        × (d.pc ≡ (if test_bit c.sr 22 then 0xbfc0_0180 else 0x8000_0080))
        × (d.next_pc ≡ d.pc + 4)
        × (low_bits d.sr 2 ≡ 0)
        × (low_bits (d.sr >> 2) 4 ≡ low_bits c.sr 4)
        × (d.sr >> 6 ≡ c.sr >> 6)
        × (low_bits (d.cause >> 8) 2 ≡ low_bits (c.cause >> 8) 2)
        × (bit d.cause 10 ≡ of_bool (irq_pending (m.irq c.inter)))
        × (low_bits (d.cause >> 28) 2 ≡ (if is_coprocessor_error e then low_bits n 2 else 0))
        × (low_bits d.cause 2 ≡ 0)
        × (bit d.cause 7 ≡ 0)
        × (low_bits (d.cause >> 11) 17 ≡ 0)
        × (bit d.cause 30 ≡ 0)
  unfolding cpu_exception_with_ce
  cpu_exception_with_ce_lem c e n =
      let k = cause_bits c e n in
      (
        refl,
        ground (arith, k.0),
        ground (arith, k.0, k.1),
        refl,
        ground arith,
        omega arith,
        omega arith,
        omega arith,
        ground (arith, k.0, k.3),
        ground (arith, k.0, k.4),
        ground (arith, k.0, k.5),
        ground (arith, k.0, k.2),
        ground (arith, k.0, k.6),
        ground (arith, k.0, k.7),
        ground (arith, k.0, k.8),
      )

  -- The parts of it that the laws below use, of an exception without a coprocessor's number.
  cpu_exception_lem :
      (c : Cpu S) (e : Exception)
      → let d = cpu_exception m c e in
        (d.epc ≡ (if c.delay_slot then sub32 c.current_pc 4 else c.current_pc))
        × (bit d.cause 31 ≡ of_bool c.delay_slot)
        × (low_bits (d.cause >> 2) 5 ≡ code e)
  unfolding cpu_exception
  cpu_exception_lem c e = let known = cpu_exception_with_ce_lem c e 0 in (known.0, known.1, known.2)

  -- `rfe` as the first instruction of a handler undoes the push of the exception: the current and
  -- the previous mode pair come back, the oldest pair is lost (it reads as 0), and the higher bits
  -- of the status are those of before.
  pub op_rfe-cpu_exception :
      (c : Cpu S) (e : Exception) (op : ℕ)
      → low_bits op 6 ≡ 0b010000
      → let d = op_rfe m (cpu_exception m c e) op in
        (low_bits d.sr 4 ≡ low_bits c.sr 4) × (low_bits (d.sr >> 4) 2 ≡ 0) × (d.sr >> 6 ≡ c.sr >> 6)
  unfolding op_rfe cpu_exception
  op_rfe-cpu_exception c e op h = ground arith

  -- Whatever is pending, the core that enters an exception takes no interrupt: its enable bit is
  -- off until a handler changes the status.
  pub cpu_irq_enabled-cpu_exception :
      (c : Cpu S) (e : Exception) → cpu_irq_enabled m (cpu_exception m c e) ≡ false
  unfolding cpu_irq_enabled cpu_exception
  cpu_irq_enabled-cpu_exception c e = ground arith

  abbrev pub sampled : Cpu S → Cpu S
  sampled c = record c { current_pc = c.pc }

  -- The three ways through the guards of a step that the laws below are about.
  step-interrupt :
      (c : Cpu S)
      → (not c.branch && cpu_irq_enabled m (sampled c)) ≡ true
      → cpu_run_next_instruction m c ≡ (2, take_interrupt m (sampled c))
  unfolding cpu_run_next_instruction
  step-interrupt c h = rw h

  step-misaligned :
      (c : Cpu S)
      → (not c.branch && cpu_irq_enabled m (sampled c)) ≡ false
      → (c.pc % 4 != 0) ≡ true
      → cpu_run_next_instruction m c ≡ (2, address_error m (sampled c) c.pc exc_load_address_error)
  unfolding cpu_run_next_instruction
  step-misaligned c h a = rw (h, a)

  pub step-runs :
      (c : Cpu S)
      → (not c.branch && cpu_irq_enabled m (sampled c)) ≡ false
      → (c.pc % 4 != 0) ≡ false
      → (c.hle_bios_vectors && cpu_is_bios_vector c.pc) ≡ false
      → let (op, d) = cpu_fetch32 m (sampled c) c.pc in
        cpu_run_next_instruction m c ≡ run_instruction m d op
  unfolding cpu_run_next_instruction
  step-runs c h a v = rw (h, a, v)

  -- An enabled and pending interrupt is taken between any other two instructions, before the
  -- next one is fetched: the step costs two cycles, EPC is the address of the instruction that
  -- did not run, the code is that of an interrupt without the branch delay bit, and the
  -- registers, the pending load and the interconnect are as before.
  pub interrupt_taken :
      (c : Cpu S)
      → c.branch ≡ false
      → cpu_irq_enabled m c ≡ true
      → let r = cpu_run_next_instruction m c in
        (r.0 ≡ 2)
        × (r.1.epc ≡ c.pc)
        × (low_bits (r.1.cause >> 2) 5 ≡ 0)
        × (bit r.1.cause 31 ≡ 0)
        × (r.1.regs ≡ c.regs)
        × (r.1.load_reg ≡ c.load_reg)
        × (r.1.load_val ≡ c.load_val)
        × (r.1.inter ≡ c.inter)
  unfolding take_interrupt cpu_exception cpu_irq_enabled
  interrupt_taken c hb he =
      let known =
        cpu_exception_lem (record c { current_pc = c.pc; delay_slot = false; branch = false })
          exc_interrupt in
      rw (step-interrupt c (rw (hb, he))) (refl, known.0, known.2, known.1, refl, refl, refl, refl)

  -- A step that takes no interrupt, at an address that is not a multiple of four, raises an
  -- address error there. The flag of the delay slot before is not reset: if it is still set,
  -- EPC is four below the address at fault and the branch delay bit is set.
  pub misaligned_fetch :
      (c : Cpu S)
      → (not c.branch && cpu_irq_enabled m (record c { current_pc = c.pc })) ≡ false
      → c.pc % 4 ≢ 0
      → let d = (cpu_run_next_instruction m c).1 in
        (d.badvaddr ≡ c.pc)
        × (low_bits (d.cause >> 2) 5 ≡ 4)
        × (bit d.cause 31 ≡ of_bool c.delay_slot)
        × (d.epc ≡ (if c.delay_slot then sub32 c.pc 4 else c.pc))
  unfolding address_error
  misaligned_fetch c hi ha =
      let known =
        cpu_exception_lem (record c { current_pc = c.pc; badvaddr = c.pc })
          exc_load_address_error in
      rw (step-misaligned c hi (ground arith)) (refl, known.2, known.1, known.0)
