-- ===== src/Cpu/State.antt =====
-- cpu.h: the state of the core, what it asks of the bus, and cpu.c's register and cycle helpers.
use psx_emulator_em_c.Base.{
  ℕ, ◌-◌, Bool, false, List, ltb, ◌==◌, ◌||◌, if◌then◌else◌, get_or, set, replicate, add32, ◌<<◌,
  u32,
}
use psx_emulator_em_c.Irq.{Irq}
use psx_emulator_em_c.Gte.{Gte, gte_init}
use psx_emulator_em_c.ICache.{CpuICache, cpu_icache_init}

-- What the core uses of the interconnect, whose state is `S`, and of the geometry coprocessor's
-- commands. A load may change the state: a read of a register clears flags, pops a queue, and so on.
pub record Machine (S : Type 0) : Type 0 where
  pub load32 : S → ℕ → ℕ × S
  pub load16 : S → ℕ → ℕ × S
  pub load8 : S → ℕ → ℕ × S
  pub store32 : S → ℕ → ℕ → S
  pub store16 : S → ℕ → ℕ → S
  pub store8 : S → ℕ → ℕ → S
  pub irq : S → Irq
  pub gte_execute : Gte → ℕ → Gte

-- `Cpu`. The field `next_instruction` is never read.
pub record Cpu (S : Type 0) : Type 0 where
  pub pc : ℕ
  pub next_pc : ℕ
  pub regs : List ℕ
  pub out_regs : List ℕ
  pub inter : S
  pub icache : CpuICache
  pub sr : ℕ
  pub badvaddr : ℕ
  pub current_pc : ℕ
  pub cause : ℕ
  pub epc : ℕ
  pub gte : Gte
  pub gte_busy_cycles : ℕ
  pub extra_cycles : ℕ
  pub load_reg : ℕ
  pub load_val : ℕ
  pub hi : ℕ
  pub lo : ℕ
  pub muldiv_busy_cycles : ℕ
  pub branch : Bool
  pub delay_slot : Bool
  pub hle_bios_vectors : Bool

abbrev pub initial_regs : List ℕ
initial_regs = set (replicate 32 0xdede_dede) 0 0

-- `cpu_init`, over an interconnect that is already set up.
unfoldable pub cpu_init : {S : Type 0} → S → Cpu S
unfolding cpu_icache_init gte_init
cpu_init inter = record {
  pc = 0xbfc0_0000;
  next_pc = 0xbfc0_0004;
  regs = initial_regs;
  out_regs = initial_regs;
  inter = inter;
  icache = cpu_icache_init;
  sr = 0;
  badvaddr = 0;
  current_pc = 0;
  cause = 0;
  epc = 0;
  gte = gte_init;
  gte_busy_cycles = 0;
  extra_cycles = 0;
  load_reg = 0;
  load_val = 0;
  hi = 0xdead_beef;
  lo = 0xdead_beef;
  muldiv_busy_cycles = 0;
  branch = false;
  delay_slot = false;
  hle_bios_vectors = false;
}

abbrev pub set_reg : List ℕ → ℕ → ℕ → List ℕ
set_reg rs idx val = set (set rs idx val) 0 0

abbrev pub cpu_is_bios_vector : ℕ → Bool
cpu_is_bios_vector pc = pc == 0xa0 || pc == 0xb0 || pc == 0xc0

-- The new value of `*busy_cycles`.
abbrev pub consume_busy_cycles : ℕ → ℕ → ℕ
consume_busy_cycles busy elapsed = if ltb elapsed busy then busy - elapsed else 0

module _ {S : Type 0} where
  -- The register that the instruction sees: `regs`, not `out_regs`.
  abbrev pub cpu_reg : Cpu S → ℕ → ℕ
  cpu_reg c idx = get_or c.regs idx 0

  unfoldable pub cpu_set_reg : Cpu S → ℕ → ℕ → Cpu S
  cpu_set_reg c idx val = record c { out_regs = set_reg c.out_regs idx val }

  unfoldable pub cpu_branch : Cpu S → ℕ → Cpu S
  cpu_branch c offset = record c { next_pc = add32 c.pc (u32 (offset << 2)); branch = Bool.true }

  unfoldable pub cpu_stall_until_gte_complete : Cpu S → Cpu S
  cpu_stall_until_gte_complete c =
      if c.gte_busy_cycles == 0
      then c
      else record c { extra_cycles = add32 c.extra_cycles c.gte_busy_cycles; gte_busy_cycles = 0 }

  unfoldable pub cpu_stall_until_muldiv_complete : Cpu S → Cpu S
  cpu_stall_until_muldiv_complete c = if c.muldiv_busy_cycles == 0 then c else record c {
    extra_cycles = add32 c.extra_cycles c.muldiv_busy_cycles;
    muldiv_busy_cycles = 0;
  }

  unfoldable pub cpu_finish_instruction_cycles : Cpu S → ℕ → ℕ × Cpu S
  cpu_finish_instruction_cycles c base_cycles =
      let elapsed = add32 base_cycles c.extra_cycles in
      (
        elapsed,
        record c {
          gte_busy_cycles = consume_busy_cycles c.gte_busy_cycles elapsed;
          muldiv_busy_cycles = consume_busy_cycles c.muldiv_busy_cycles elapsed;
        },
      )
