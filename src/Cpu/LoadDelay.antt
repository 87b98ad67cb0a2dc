-- ===== src/Cpu/LoadDelay.antt =====
-- cpu.c: the delay slot of a load.
use psx_emulator_em_c.Base.{
  ℕ, zero, ◌*◌, ◌%◌, ◌≡◌, refl, ap, ap₂, ◌∙◌, suc, List, [], ◌∷◌, u32, arith, false, ◌!=◌, get_or,
  add32,
}
use psx_emulator_em_c.Cpu.Instruction.{instr_t, instr_s, instr_imm_se}
use psx_emulator_em_c.Cpu.State.{
  Machine, Cpu, set_reg, cpu_reg, cpu_set_reg, cpu_finish_instruction_cycles,
}
use psx_emulator_em_c.Cpu.Memory.{cpu_load32, cpu_add_bus_cycles}
use psx_emulator_em_c.Cpu.Decode.{decode, decode_and_execute, execute, lw}
use psx_emulator_em_c.Cpu.LoadStore.{op_lw}
use psx_emulator_em_c.Cpu.Alu.{op_sll}
use psx_emulator_em_c.Cpu.Run.{run_instruction, before_execute, commit_load, retire}

set_reg-zero : (rs : List ℕ) (k v x : ℕ) → set_reg (set_reg rs k v) 0 x ≡ set_reg rs k v
set_reg-zero [] k v x = refl
set_reg-zero (y ∷ rs) zero v x = refl
set_reg-zero (y ∷ rs) (suc k) v x = refl

pub cpu_add_bus_cycles-keeps :
    {S : Type 0} (c : Cpu S) (addr width : ℕ)
    → ((cpu_add_bus_cycles c addr width).out_regs ≡ c.out_regs)
      × ((cpu_add_bus_cycles c addr width).inter ≡ c.inter)
unfolding cpu_add_bus_cycles
cpu_add_bus_cycles-keeps c addr width = ground arith

pub committed :
    {S : Type 0} (d : Cpu S)
    → ((before_execute d).out_regs ≡ set_reg d.out_regs d.load_reg d.load_val)
      × ((before_execute d).regs ≡ d.regs)
unfolding before_execute commit_load cpu_set_reg
committed d = (refl, refl)

module _ {S : Type 0} (m : Machine S) where
  lw_step :
      (c : Cpu S) (op : ℕ)
      → decode op ≡ lw
      → let addr = add32 (cpu_reg c (instr_s op)) (instr_imm_se op) in
        addr % 4 ≡ 0
        → let d = (run_instruction m c op).1 in
          (d.regs ≡ set_reg c.out_regs c.load_reg c.load_val)
          × (d.out_regs ≡ d.regs)
          × (d.load_reg ≡ instr_t op)
          × (d.load_val ≡ (m.load32 c.inter addr).0)
  unfolding run_instruction decode_and_execute execute op_lw before_execute commit_load retire
      cpu_load32 cpu_set_reg cpu_finish_instruction_cycles
  lw_step c op h a =
      let addr = add32 (cpu_reg c (instr_s op)) (instr_imm_se op) in
      let aligned : (addr % 4 != 0) ≡ false = rw a in
      let bus = cpu_add_bus_cycles-keeps (before_execute c) addr 4 in
      rw (h, aligned) (bus.0, refl, refl, ap (λ s. (m.load32 s addr).0) bus.1)

  pub nop_step :
      (d : Cpu S)
      → let e = (run_instruction m d 0).1 in e.regs ≡ set_reg d.out_regs d.load_reg d.load_val
  unfolding run_instruction decode_and_execute decode execute op_sll before_execute commit_load
      retire cpu_set_reg cpu_finish_instruction_cycles
  nop_step d = set_reg-zero d.out_regs d.load_reg d.load_val (u32 (get_or d.regs 0 0 * 1))

  -- The delay of `lw` from an aligned address: after its step the registers are those of
  -- before, with the earlier load in its place that was pending. The next instruction,
  -- whatever it is, still reads those registers, while the loaded word is already among those
  -- that it writes to, so that its own write to the same register wins. After a `nop` the
  -- register, unless it is register 0, holds the word that the bus gave.
  pub load_delay :
      (c : Cpu S) (op : ℕ)
      → decode op ≡ lw
      → add32 (cpu_reg c (instr_s op)) (instr_imm_se op) % 4 ≡ 0
      → let v = (m.load32 c.inter (add32 (cpu_reg c (instr_s op)) (instr_imm_se op))).0 in
        let d = (run_instruction m c op).1 in
        let e = (run_instruction m d 0).1 in
        (d.regs ≡ set_reg c.out_regs c.load_reg c.load_val)
        × ((before_execute d).regs ≡ d.regs)
        × ((before_execute d).out_regs ≡ set_reg d.regs (instr_t op) v)
        × (e.regs ≡ set_reg d.regs (instr_t op) v)
  load_delay c op h a =
      let d = (run_instruction m c op).1 in
      let known = lw_step c op h a in
      let loaded =
        ap₂ (set_reg d.out_regs) known.2 known.3
        ∙ ap
            (λ rs.
              set_reg rs (instr_t op)
                (m.load32 c.inter (add32 (cpu_reg c (instr_s op)) (instr_imm_se op))).0)
            known.1 in
      (known.0, (committed d).1, (committed d).0 ∙ loaded, nop_step d ∙ loaded)
