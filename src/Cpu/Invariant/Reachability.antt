-- ===== src/Cpu/Invariant/Reachability.antt =====
-- The states of the core that are reached from `cpu_init`.
use psx_emulator_em_c.Base.{refl, arith, replicate, All-set, All-replicate}
use psx_emulator_em_c.Gte.{gte_init}
use psx_emulator_em_c.Cpu.State.{Machine, Cpu, cpu_init, initial_regs}
use psx_emulator_em_c.Cpu.Run.{cpu_run_next_instruction}
use psx_emulator_em_c.Cpu.Invariant.Defs.{IsRegs, IsValid, IsMachine}
use psx_emulator_em_c.Gte.Words.{IsWord, IsGte}
use psx_emulator_em_c.Cpu.Invariant.StepKeeps.{cpu_run_next_instruction-IsValid}

initial_regs-IsRegs : IsRegs initial_regs
initial_regs-IsRegs = record {
  count = refl;
  words =
      All-set IsWord (replicate 32 0xdede_dede) 0 0
        (All-replicate IsWord 32 0xdede_dede (omega arith)) (omega arith);
  zero_reg = refl;
}

gte_init-IsGte : IsGte gte_init
unfolding gte_init
gte_init-IsGte = record {
  dr_count = refl;
  dr_words = All-replicate IsWord 32 0 (omega arith);
  cr_count = refl;
  cr_words = All-replicate IsWord 32 0 (omega arith);
}

pub cpu_init-IsValid : {S : Type 0} (s : S) → IsValid (cpu_init s)
unfolding cpu_init
cpu_init-IsValid s = record {
  regs_valid = initial_regs-IsRegs;
  out_valid = initial_regs-IsRegs;
  gte_valid = gte_init-IsGte;
  pc_word = omega arith;
  next_pc_word = omega arith;
  sr_word = omega arith;
  badvaddr_word = omega arith;
  current_pc_word = omega arith;
  cause_word = omega arith;
  epc_word = omega arith;
  load_reg_small = omega arith;
  load_val_word = omega arith;
  hi_word = omega arith;
  lo_word = omega arith;
}

inter-IsValid : {S : Type 0} {c : Cpu S} → IsValid c → (s : S) → IsValid (record c { inter = s })
inter-IsValid v s = assumption

-- What a run of the program does to the core: the start, steps, and between them the devices, which
-- may change the interconnect in any way.
pub data Reachable {S : Type 0} (m : Machine S) : Cpu S → Type 0 where
  start : (s : S) → Reachable m (cpu_init s)
  step : {c : Cpu S} → Reachable m c → Reachable m (cpu_run_next_instruction m c).1
  devices : {c : Cpu S} (s : S) → Reachable m c → Reachable m (record c { inter = s })

-- If the interconnect answers each load within its width, and a command leaves the geometry
-- coprocessor with two files of 32 words, then every state that a run reaches from `cpu_init`,
-- by any number of steps with any changes of the interconnect between them, is well-formed:
-- both register files have 32 words and a register 0 that reads 0, the pending load names one
-- of the 32, the coprocessor has its two files, and the program counters, the pending value,
-- the status, CAUSE, EPC, BADVADDR, HI and LO are words.
pub Reachable-IsValid :
    {S : Type 0} {m : Machine S} → IsMachine m → {c : Cpu S} → Reachable m c → IsValid c
Reachable-IsValid lawful (start s) = cpu_init-IsValid s
Reachable-IsValid lawful (step r) =
    cpu_run_next_instruction-IsValid lawful (Reachable-IsValid lawful r)
Reachable-IsValid lawful (devices s r) = inter-IsValid (Reachable-IsValid lawful r) s
