-- ===== src/Tests/Bus.antt =====
-- An interconnect for the tests: a memory of words and an interrupt controller.
use psx_emulator_em_c.Base.{false, ℕ, ◌==◌, if◌then◌else◌, arith, u8, u16, u32}
use psx_emulator_em_c.Irq.{Irq}
use psx_emulator_em_c.Cpu.State.{Machine, Cpu, cpu_init, initial_regs}
use psx_emulator_em_c.Cpu.Invariant.{IsMachine}

pub record Bus : Type 0 where
  pub word_at : ℕ → ℕ
  pub irq : Irq

abbrev write : Bus → ℕ → ℕ → Bus
write b a v = record b { word_at = λ i. if i == a then u32 v else b.word_at i }

-- A command of the coprocessor leaves the registers alone here.
abbrev pub machine : Machine Bus
machine = record {
  load32 = λ b a. (u32 (b.word_at a), b);
  load16 = λ b a. (u16 (b.word_at a), b);
  load8 = λ b a. (u8 (b.word_at a), b);
  store32 = λ b a v. write b a v;
  store16 = λ b a v. write b a v;
  store8 = λ b a v. write b a v;
  irq = λ b. b.irq;
  gte_execute = λ g cmd. g;
}

pub machine-IsMachine : IsMachine machine
machine-IsMachine = record {
  load32_word = λ b a. omega arith;
  load16_half = λ b a. omega arith;
  load8_byte = λ b a. omega arith;
  execute_gte = λ g cmd v. v;
}

-- `lw $2, 4($0)` at the reset vector and a `nop` everywhere else; the word at 4 is 0xbeef.
abbrev pub lw_op : ℕ
lw_op = 0x8c02_0004

abbrev pub bus : Bus
bus = record {
  word_at = λ a. if a == 0xbfc0_0000 then lw_op else if a == 4 then 0xbeef else 0;
  irq = record { status = 1; mask = 1 };
}

abbrev pub at_reset : Cpu Bus
at_reset = cpu_init bus

-- The same core with its fields given, so that what reads them computes.
abbrev pub running : Cpu Bus
running = record at_reset {
  pc = 0x8000_0000;
  next_pc = 0x8000_0004;
  regs = initial_regs;
  out_regs = initial_regs;
  branch = false;
  delay_slot = false;
  load_reg = 0;
  load_val = 0;
  hle_bios_vectors = false;
  inter = bus;
  sr = 0;
  cause = 0;
  current_pc = 0x8000_0000;
}
