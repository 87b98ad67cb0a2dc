-- ===== src/Cpu/LoadStore.antt =====
-- cpu.c: the handlers of loads and stores.
use psx_emulator_em_c.Base.{
  ℕ, ◌%◌, ◌!=◌, if◌then◌else◌, get_or, u8, u16, add32, low_bits, clear_low, signed8, signed16,
  to_u32,
}
use psx_emulator_em_c.Gte.{gte_load, gte_store}
use psx_emulator_em_c.ICache.{cpu_cache_isolation_blocks_store}
use psx_emulator_em_c.Cpu.Instruction.{
  instr_t, instr_imm_se, exc_load_address_error, exc_store_address_error,
}
use psx_emulator_em_c.Cpu.State.{Machine, Cpu, cpu_stall_until_gte_complete}
use psx_emulator_em_c.Cpu.Memory.{
  cpu_load32, cpu_load16, cpu_load8, cpu_store32, cpu_store16, cpu_store8,
}
use psx_emulator_em_c.Cpu.Exceptions.{address_error}
use psx_emulator_em_c.Cpu.Arithmetic.{lwl_merge, lwr_merge, swl_merge, swr_merge}
use psx_emulator_em_c.Cpu.Alu.{rs, rt}

module _ {S : Type 0} where
  abbrev pub effective : Cpu S → ℕ → ℕ
  effective c op = add32 (rs c op) (instr_imm_se op)

  -- A load is delayed: it reaches its register at the start of the next instruction.
  abbrev pub delay_load : Cpu S → ℕ → ℕ → Cpu S
  delay_load c idx val = record c { load_reg = idx; load_val = val }

module _ {S : Type 0} (m : Machine S) where
  unfoldable pub op_lw : Cpu S → ℕ → Cpu S
  op_lw c op =
      let addr = effective c op in
      if addr % 4 != 0
      then address_error m c addr exc_load_address_error
      else let (v, c) = cpu_load32 m c addr in delay_load c (instr_t op) v

  unfoldable pub op_lh : Cpu S → ℕ → Cpu S
  op_lh c op =
      let addr = effective c op in
      if addr % 2 != 0
      then address_error m c addr exc_load_address_error
      else let (v, c) = cpu_load16 m c addr in delay_load c (instr_t op) (to_u32 (signed16 v))

  unfoldable pub op_lhu : Cpu S → ℕ → Cpu S
  op_lhu c op =
      let addr = effective c op in
      if addr % 2 != 0
      then address_error m c addr exc_load_address_error
      else let (v, c) = cpu_load16 m c addr in delay_load c (instr_t op) v

  unfoldable pub op_lb : Cpu S → ℕ → Cpu S
  op_lb c op =
      let (v, c) = cpu_load8 m c (effective c op) in delay_load c (instr_t op) (to_u32 (signed8 v))

  unfoldable pub op_lbu : Cpu S → ℕ → Cpu S
  op_lbu c op = let (v, c) = cpu_load8 m c (effective c op) in delay_load c (instr_t op) v

  -- The register that an unaligned load merges into is read from `out_regs`: a load that is
  -- pending for it has been committed already.
  unfoldable pub op_lwl : Cpu S → ℕ → Cpu S
  op_lwl c op =
      let addr = effective c op in
      let cur_v = get_or c.out_regs (instr_t op) 0 in
      let (word, c) = cpu_load32 m c (clear_low addr 2) in
      delay_load c (instr_t op) (lwl_merge (low_bits addr 2) cur_v word)

  unfoldable pub op_lwr : Cpu S → ℕ → Cpu S
  op_lwr c op =
      let addr = effective c op in
      let cur_v = get_or c.out_regs (instr_t op) 0 in
      let (word, c) = cpu_load32 m c (clear_low addr 2) in
      delay_load c (instr_t op) (lwr_merge (low_bits addr 2) cur_v word)

  unfoldable pub op_sw : Cpu S → ℕ → Cpu S
  op_sw c op =
      let addr = effective c op in
      if addr % 4 != 0
      then address_error m c addr exc_store_address_error
      else cpu_store32 m c addr (rt c op)

  unfoldable pub op_sh : Cpu S → ℕ → Cpu S
  op_sh c op =
      let addr = effective c op in
      if addr % 2 != 0
      then address_error m c addr exc_store_address_error
      else cpu_store16 m c addr (u16 (rt c op))

  unfoldable pub op_sb : Cpu S → ℕ → Cpu S
  op_sb c op = cpu_store8 m c (effective c op) (u8 (rt c op))

  unfoldable pub op_swl : Cpu S → ℕ → Cpu S
  op_swl c op =
      let addr = effective c op in
      let aligned = clear_low addr 2 in
      if cpu_cache_isolation_blocks_store c.sr addr
      then c
      else let v = rt c op in
        let (mem, c) = cpu_load32 m c aligned in
        cpu_store32 m c aligned (swl_merge (low_bits addr 2) mem v)

  unfoldable pub op_swr : Cpu S → ℕ → Cpu S
  op_swr c op =
      let addr = effective c op in
      let aligned = clear_low addr 2 in
      if cpu_cache_isolation_blocks_store c.sr addr
      then c
      else let v = rt c op in
        let (mem, c) = cpu_load32 m c aligned in
        cpu_store32 m c aligned (swr_merge (low_bits addr 2) mem v)

  unfoldable pub op_lwc2 : Cpu S → ℕ → Cpu S
  op_lwc2 c op =
      let addr = effective c op in
      if addr % 4 != 0
      then address_error m c addr exc_load_address_error
      else let (val, c) = cpu_load32 m (cpu_stall_until_gte_complete c) addr in
        record c { gte = gte_load c.gte (instr_t op) val }

  unfoldable pub op_swc2 : Cpu S → ℕ → Cpu S
  op_swc2 c op =
      let c = cpu_stall_until_gte_complete c in
      let addr = effective c op in
      if addr % 4 != 0
      then address_error m c addr exc_store_address_error
      else cpu_store32 m c addr (gte_store c.gte (instr_t op))
