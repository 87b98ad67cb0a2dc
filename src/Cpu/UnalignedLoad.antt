-- ===== src/Cpu/UnalignedLoad.antt =====
-- cpu.c: `lwl` and then `lwr`, run one after the other, load a word from any address.
use psx_emulator_em_c.Base.{
  ℕ, ◌+◌, ◌<◌, ◌≡◌, ◌≢◌, refl, ap, ap₂, sym, ◌∙◌, arith, length, get_or, set, get_or-set_self,
  get_or-set_ne, length-set, low_bits, clear_low, add32, List,
}
use psx_emulator_em_c.Cpu.Instruction.{instr_t, instr_s, instr_imm_se}
use psx_emulator_em_c.Cpu.State.{
  Machine, Cpu, set_reg, cpu_reg, cpu_set_reg, cpu_finish_instruction_cycles,
}
use psx_emulator_em_c.Cpu.Arithmetic.{lwl_merge, lwr_merge}
use psx_emulator_em_c.Cpu.Memory.{cpu_load32}
use psx_emulator_em_c.Cpu.Decode.{decode, decode_and_execute, execute, lwl, lwr}
use psx_emulator_em_c.Cpu.LoadStore.{op_lwl, op_lwr}
use psx_emulator_em_c.Cpu.Run.{run_instruction, before_execute, commit_load, retire}
use psx_emulator_em_c.Cpu.LoadDelay.{cpu_add_bus_cycles-keeps, nop_step}
use psx_emulator_em_c.Cpu.UnalignedAccess.{load_word, lwr_merge-lwl_merge}

-- Registers other than 0 in the file of registers.
set_reg_self : (rs : List ℕ) (t v : ℕ) → t ≢ 0 → t < length rs → get_or (set_reg rs t v) t 0 ≡ v
set_reg_self rs t v h l =
    get_or-set_ne (set rs t v) 0 t 0 0 (λ e. h (sym e)) ∙ get_or-set_self rs t v 0 l

set_reg_other :
    (rs : List ℕ) (t v k : ℕ) → t ≢ k → k ≢ 0 → get_or (set_reg rs t v) k 0 ≡ get_or rs k 0
set_reg_other rs t v k h z =
    get_or-set_ne (set rs t v) 0 k 0 0 (λ e. z (sym e)) ∙ get_or-set_ne rs t k v 0 h

length-set_reg : (rs : List ℕ) (t v : ℕ) → length (set_reg rs t v) ≡ length rs
length-set_reg rs t v = length-set (set rs t v) 0 0 ∙ length-set rs t v

module _ {S : Type 0} (m : Machine S) where
  abbrev pub address : Cpu S → ℕ → ℕ
  address c op = add32 (cpu_reg c (instr_s op)) (instr_imm_se op)

  -- The registers once the load before has reached its register.
  abbrev pub visible : Cpu S → List ℕ
  visible c = set_reg c.out_regs c.load_reg c.load_val

  -- A step that leaves a load of the merged word.
  abbrev pub Merges : (ℕ → ℕ → ℕ → ℕ) → Cpu S → ℕ → Type 0
  Merges merge c op =
      let d = (run_instruction m c op).1 in
      let r = m.load32 c.inter (clear_low (address c op) 2) in
      (d.regs ≡ visible c)
      × (d.out_regs ≡ visible c)
      × (d.load_reg ≡ instr_t op)
      × (d.load_val ≡ merge (low_bits (address c op) 2) (get_or (visible c) (instr_t op) 0) r.0)
      × (d.inter ≡ r.1)

  pub lwl_step : (c : Cpu S) (op : ℕ) → decode op ≡ lwl → Merges lwl_merge c op
  unfolding run_instruction decode_and_execute execute op_lwl before_execute commit_load retire
      cpu_load32 cpu_set_reg cpu_finish_instruction_cycles
  lwl_step c op h =
      let addr = clear_low (address c op) 2 in
      let bus = cpu_add_bus_cycles-keeps (before_execute c) addr 4 in
      rw h (
        bus.0,
        bus.0,
        refl,
        ap
            (λ s.
              lwl_merge (low_bits (address c op) 2) (get_or (visible c) (instr_t op) 0)
                (m.load32 s addr).0)
            bus.1,
        ap (λ s. (m.load32 s addr).1) bus.1,
      )

  lwr_step : (c : Cpu S) (op : ℕ) → decode op ≡ lwr → Merges lwr_merge c op
  unfolding run_instruction decode_and_execute execute op_lwr before_execute commit_load retire
      cpu_load32 cpu_set_reg cpu_finish_instruction_cycles
  lwr_step c op h =
      let addr = clear_low (address c op) 2 in
      let bus = cpu_add_bus_cycles-keeps (before_execute c) addr 4 in
      rw h (
        bus.0,
        bus.0,
        refl,
        ap
            (λ s.
              lwr_merge (low_bits (address c op) 2) (get_or (visible c) (instr_t op) 0)
                (m.load32 s addr).0)
            bus.1,
        ap (λ s. (m.load32 s addr).1) bus.1,
      )

  -- `lwl` of address `x + 3` and then `lwr` of `x`, run one after the other into the same register,
  -- which is not 0, on a bus that gives the little-endian words of a memory of bytes at the two
  -- aligned addresses: after a `nop` the register has the word at `x`, at each of the four alignments,
  -- and every other register what it had once the load before `lwl` was done. The address of `lwr` is
  -- computed from the registers that it finds.
  pub lwl-lwr :
      (c : Cpu S) (op op' x : ℕ) (byte : ℕ → ℕ)
      → ((a : ℕ) → byte a < 256)
      → decode op ≡ lwl
      → decode op' ≡ lwr
      → instr_t op' ≡ instr_t op
      → instr_t op ≢ 0
      → instr_t op < length c.out_regs
      → add32 (cpu_reg c (instr_s op)) (instr_imm_se op) ≡ x + 3
      → let d = (run_instruction m c op).1 in
        add32 (cpu_reg d (instr_s op')) (instr_imm_se op') ≡ x
        → let first = m.load32 c.inter (clear_low (x + 3) 2) in
          first.0 ≡ load_word byte (clear_low (x + 3) 2)
          → (m.load32 first.1 (clear_low x 2)).0 ≡ load_word byte (clear_low x 2)
          → (k : ℕ) → k ≢ instr_t op
          → k ≢ 0
          → let e = (run_instruction m (run_instruction m d op').1 0).1 in
            (cpu_reg e (instr_t op) ≡ load_word byte x)
            × (cpu_reg e k ≡ get_or (set_reg c.out_regs c.load_reg c.load_val) k 0)
  lwl-lwr c op op' x byte small hl hr same nz inside at_upper at_lower upper lower k other kz =
      let t = instr_t op in
      let d = (run_instruction m c op).1 in
      let g = (run_instruction m d op').1 in
      let p = lwl_step c op hl in
      let q = lwr_step d op' hr in
      let merged =
        lwl_merge (low_bits (x + 3) 2) (get_or (visible c) t 0)
          (load_word byte (clear_low (x + 3) 2)) in
      let cur = get_or (visible c) t 0 in
      let once = set_reg (visible c) t merged in
      let word = load_word byte x in
      let inside_visible : t < length (visible c) =
        omega (arith, length-set_reg c.out_regs c.load_reg c.load_val) in
      let inside_once : t < length once = omega (arith, length-set_reg (visible c) t merged) in
      let first_loaded : d.load_val ≡ merged =
        p.3
        ∙ ap (λ (n : ℕ). lwl_merge (low_bits n 2) cur (m.load32 c.inter (clear_low n 2)).0) at_upper
        ∙ ap (lwl_merge (low_bits (x + 3) 2) cur) upper in
      let seen : visible d ≡ once =
        ap (λ (rs : List ℕ). set_reg rs d.load_reg d.load_val) p.1
        ∙ ap₂ (set_reg (visible c)) p.2 first_loaded in
      let found : get_or (visible d) (instr_t op') 0 ≡ merged =
        ap₂ (λ (rs : List ℕ) (n : ℕ). get_or rs n 0) seen same
        ∙ set_reg_self (visible c) t merged nz inside_visible in
      let state : d.inter ≡ (m.load32 c.inter (clear_low (x + 3) 2)).1 =
        p.4 ∙ ap (λ (n : ℕ). (m.load32 c.inter (clear_low n 2)).1) at_upper in
      let second_loaded : g.load_val ≡ word =
        q.3
        ∙ ap
            (λ (n : ℕ).
              lwr_merge (low_bits n 2) (get_or (visible d) (instr_t op') 0)
                (m.load32 d.inter (clear_low n 2)).0)
            at_lower
        ∙ ap₂ (lwr_merge (low_bits x 2)) found
            (ap (λ (s : S). (m.load32 s (clear_low x 2)).0) state ∙ lower)
        ∙ lwr_merge-lwl_merge byte cur x small in
      let written : (run_instruction m g 0).1.regs ≡ set_reg once t word =
        nop_step m g
        ∙ ap (λ (rs : List ℕ). set_reg rs g.load_reg g.load_val) (q.1 ∙ seen)
        ∙ ap₂ (set_reg once) (q.2 ∙ same) second_loaded in
      (
        ap (λ (rs : List ℕ). get_or rs t 0) written ∙ set_reg_self once t word nz inside_once,
        ap (λ (rs : List ℕ). get_or rs k 0) written
            ∙ set_reg_other once t word k (λ e. other (sym e)) kz
            ∙ set_reg_other (visible c) t merged k (λ e. other (sym e)) kz,
      )
