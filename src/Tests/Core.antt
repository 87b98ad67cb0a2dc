-- ===== src/Tests/Core.antt =====
-- Runs of the core: exceptions, interrupts, delay slots and the invariant.
use psx_emulator_em_c.Base.{
  ◌==◌, if◌then◌else◌, ℕ, ap, List, get_or, add32, of_bool, [], ◌∷◌, not, ◌&&◌, ◌+◌, ◌≡◌, refl,
  arith, true, false, bit, low_bits, ◌>>◌,
}
use psx_emulator_em_c.Cpu.Instruction.{instr_imm_se, exc_coprocessor_error, exc_syscall}
use psx_emulator_em_c.Cpu.State.{Cpu, cpu_reg, set_reg}
use psx_emulator_em_c.Cpu.Exceptions.{
  cpu_exception_with_ce, cpu_exception, op_rfe, cpu_pending_irq_cause, cpu_external_irq_cause,
  cpu_irq_enabled,
}
use psx_emulator_em_c.Cpu.Decode.{decode, dispatch}
use psx_emulator_em_c.Irq.{irq_pending}
use psx_emulator_em_c.Cpu.Alu.{op_div}
use psx_emulator_em_c.Cpu.ArithmeticLaws.{IsDivision, op_div_lem}
use psx_emulator_em_c.Cpu.Run.{cpu_run_next_instruction, run_instruction, before_execute}
use psx_emulator_em_c.Cpu.Invariant.{IsValid, Reachable, Reachable-IsValid}
use psx_emulator_em_c.Cpu.ExceptionLaws.{
  cpu_exception_with_ce_lem, op_rfe-cpu_exception, interrupt_taken, misaligned_fetch,
}
use psx_emulator_em_c.Cpu.UnalignedAccess.{load_word}
use psx_emulator_em_c.Cpu.UnalignedLoad.{lwl-lwr, lwl_step}
use psx_emulator_em_c.Cpu.LoadDelay.{load_delay}
use psx_emulator_em_c.Tests.Bus.{Bus, machine, machine-IsMachine, bus, lw_op, at_reset, running}

-- Two steps from the reset, with a change of the devices in between.
after_two :
    Reachable machine
      (cpu_run_next_instruction machine
        (record (cpu_run_next_instruction machine at_reset).1 { inter = bus })).1
after_two = Reachable.step (Reachable.devices bus (Reachable.step (Reachable.start bus)))

Reachable-IsValid_example :
    IsValid
      (cpu_run_next_instruction machine
        (record (cpu_run_next_instruction machine at_reset).1 { inter = bus })).1
Reachable-IsValid_example = Reachable-IsValid machine-IsMachine after_two

-- An overflow in a delay slot.
abbrev in_slot : Cpu Bus
in_slot = record running { delay_slot = true; sr = 0b1101 }

cpu_exception_with_ce_lem_example :
    let d = cpu_exception_with_ce machine in_slot exc_coprocessor_error 2 in
    (d.epc ≡ 0x7fff_fffc)
    × (bit d.cause 31 ≡ 1)
    × (low_bits (d.cause >> 2) 5 ≡ 11)
    × (d.pc ≡ 0x8000_0080)
    × (d.next_pc ≡ d.pc + 4)
    × (low_bits d.sr 2 ≡ 0)
    × (low_bits (d.sr >> 2) 4 ≡ 0b1101)
    × (d.sr >> 6 ≡ 0)
    × (low_bits (d.cause >> 8) 2 ≡ low_bits (in_slot.cause >> 8) 2)
    × (bit d.cause 10 ≡ of_bool (irq_pending bus.irq))
    × (low_bits (d.cause >> 28) 2 ≡ 2)
    × (low_bits d.cause 2 ≡ 0)
    × (bit d.cause 7 ≡ 0)
    × (low_bits (d.cause >> 11) 17 ≡ 0)
    × (bit d.cause 30 ≡ 0)
cpu_exception_with_ce_lem_example =
    cpu_exception_with_ce_lem machine in_slot exc_coprocessor_error 2

-- -7 by 2.
op_div_lem_example :
    let c = record running { regs = 0 ∷ 0xffff_fff9 ∷ 2 ∷ [] } in
    let e = op_div c 0x0022_001a in
    IsDivision 0xffff_fff9 2 e.hi e.lo
    × (e.regs ≡ c.regs)
    × (e.out_regs ≡ c.out_regs)
    × (e.muldiv_busy_cycles ≡ 37)
op_div_lem_example =
    op_div_lem (record running { regs = 0 ∷ 0xffff_fff9 ∷ 2 ∷ [] }) 0x0022_001a (omega arith)
      (omega arith)

op_rfe-cpu_exception_example :
    let d = op_rfe machine (cpu_exception machine in_slot exc_syscall) 0x4200_0010 in
    (low_bits d.sr 4 ≡ 0b1101) × (low_bits (d.sr >> 4) 2 ≡ 0) × (d.sr >> 6 ≡ 0)
op_rfe-cpu_exception_example = op_rfe-cpu_exception machine in_slot exc_syscall 0x4200_0010 refl

-- An interrupt that is enabled and pending, between two instructions.
abbrev interruptible : Cpu Bus
interruptible = record running { sr = 0x401 }

interruptible-enabled : cpu_irq_enabled machine interruptible ≡ true
unfolding cpu_irq_enabled cpu_pending_irq_cause cpu_external_irq_cause irq_pending
interruptible-enabled = refl

interrupt_taken_example :
    let r = cpu_run_next_instruction machine interruptible in
    (r.0 ≡ 2)
    × (r.1.epc ≡ 0x8000_0000)
    × (low_bits (r.1.cause >> 2) 5 ≡ 0)
    × (bit r.1.cause 31 ≡ 0)
    × (r.1.regs ≡ interruptible.regs)
    × (r.1.load_reg ≡ 0)
    × (r.1.load_val ≡ 0)
    × (r.1.inter ≡ bus)
interrupt_taken_example = interrupt_taken machine interruptible refl interruptible-enabled

-- A jump to an address that is not aligned, with the flag of a delay slot set.
abbrev astray : Cpu Bus
astray = record running { pc = 0x8000_0002; delay_slot = true }

astray-quiet :
    (not astray.branch && cpu_irq_enabled machine (record astray { current_pc = 0x8000_0002 }))
    ≡ false
unfolding cpu_irq_enabled cpu_pending_irq_cause cpu_external_irq_cause irq_pending
astray-quiet = refl

misaligned_fetch_example :
    let d = (cpu_run_next_instruction machine astray).1 in
    (d.badvaddr ≡ 0x8000_0002)
    × (low_bits (d.cause >> 2) 5 ≡ 4)
    × (bit d.cause 31 ≡ 1)
    × (d.epc ≡ 0x7fff_fffe)
misaligned_fetch_example = misaligned_fetch machine astray astray-quiet (omega arith)

load_delay_example :
    let d = (run_instruction machine running lw_op).1 in
    let e = (run_instruction machine d 0).1 in
    (d.regs ≡ set_reg running.out_regs 0 0)
    × ((before_execute d).regs ≡ d.regs)
    × ((before_execute d).out_regs ≡ set_reg d.regs 2 0xbeef)
    × (e.regs ≡ set_reg d.regs 2 0xbeef)
unfolding decode instr_imm_se dispatch
load_delay_example = load_delay machine running lw_op refl refl

-- `lwl $2, 4($0)` and `lwr $2, 1($0)`, where the byte at an address is the address.
abbrev lwl_op : ℕ
lwl_op = 0x8802_0004

abbrev lwr_op : ℕ
lwr_op = 0x9802_0001

abbrev counting : ℕ → ℕ
counting a = low_bits a 8

abbrev over_bytes : Cpu Bus
over_bytes = record running { inter = record bus { word_at = load_word counting } }

lwl-lwr_example :
    let d = (run_instruction machine over_bytes lwl_op).1 in
    let e = (run_instruction machine (run_instruction machine d lwr_op).1 0).1 in
    (cpu_reg e 2 ≡ load_word counting 1)
    × (cpu_reg e 3 ≡ get_or (set_reg over_bytes.out_regs 0 0) 3 0)
unfolding decode instr_imm_se dispatch
lwl-lwr_example =
    lwl-lwr machine over_bytes lwl_op lwr_op 1 counting (λ a. omega arith) refl refl refl
      (omega arith) (omega arith) refl
      (ap (λ (rs : List ℕ). add32 (get_or rs 0 0) 1) (lwl_step machine over_bytes lwl_op refl).0)
      refl refl 3 (omega arith) (omega arith)

-- `j 0x10` in a delay slot, with an interrupt that is enabled and pending all the time.
abbrev jumping : Cpu Bus
jumping = record running {
  pc = 0xa000_0000;
  next_pc = 0xa000_0004;
  branch = true;
  sr = 0x401;
  inter = record bus { word_at = λ a. if a == 0xa000_0000 then 0x0800_0004 else 0 };
}
