-- ===== src/Cpu/Invariant/MemoryKeeps.antt =====
-- Loads and stores keep the core well-formed, if the interconnect answers in the width asked for.
use psx_emulator_em_c.Base.{
  ℕ, ◌^◌, ◌<◌, arith, Bool, true, false, not, Option, none, some, clear_low, if◌then◌else◌,
}
use psx_emulator_em_c.ICache.{cpu_icache_is_cacheable, cpu_icache_lookup}
use psx_emulator_em_c.Gte.{Gte, gte_load}
use psx_emulator_em_c.Cpu.Instruction.{instr_t, exc_load_address_error, exc_store_address_error}
use psx_emulator_em_c.Cpu.State.{Machine, Cpu}
use psx_emulator_em_c.Cpu.Memory.{
  cpu_add_bus_cycles, cpu_load32, cpu_load16, cpu_load8, cpu_store32, cpu_store16, cpu_store8,
  refill, fetch_miss, cpu_fetch32,
}
use psx_emulator_em_c.Cpu.Arithmetic.{lwl_merge, lwr_merge}
use psx_emulator_em_c.Cpu.LoadStore.{
  effective, delay_load, op_lw, op_lh, op_lhu, op_lb, op_lbu, op_lwl, op_lwr, op_sw, op_sh, op_sb,
  op_swl, op_swr, op_lwc2, op_swc2,
}
use psx_emulator_em_c.Cpu.Invariant.Defs.{
  IsValid, IsMachine, out_reg-lt, stall_gte-IsValid, address_error-IsValid,
}
use psx_emulator_em_c.Gte.Words.{IsWord, IsGte}
use psx_emulator_em_c.Gte.Words.{to_u32-lt}
use psx_emulator_em_c.Gte.Words.{gte_write_data-IsGte}

module _ {S : Type 0} {c : Cpu S} (v : IsValid c) where
  cpu_add_bus_cycles-IsValid : (addr width : ℕ) → IsValid (cpu_add_bus_cycles c addr width)
  unfolding cpu_add_bus_cycles
  cpu_add_bus_cycles-IsValid addr width = ground arith

  pub delay_load-IsValid : (idx val : ℕ) → idx < 32 → IsWord val → IsValid (delay_load c idx val)
  delay_load-IsValid idx val i w = assumption (i, w)

  inter-IsValid : (s : S) → IsValid (record c { inter = s })
  inter-IsValid s = assumption

  pub put_gte-IsValid : {g : Gte} → IsGte g → IsValid (record c { gte = g })
  put_gte-IsValid w = assumption (w)

lwl_merge-lt : (lane cur word : ℕ) → IsWord word → IsWord (lwl_merge lane cur word)
unfolding lwl_merge
lwl_merge-lt lane cur word w = ground arith

lwr_merge-lt : (lane cur word : ℕ) → IsWord cur → IsWord word → IsWord (lwr_merge lane cur word)
unfolding lwr_merge
lwr_merge-lt lane cur word u w = ground arith

abbrev HasWord : {S : Type 0} → ℕ × Cpu S → Type 0
HasWord r = IsWord r.0 × IsValid r.1

module _ {S : Type 0} {m : Machine S} (lawful : IsMachine m) where
  cpu_load32-keeps : {c : Cpu S} → IsValid c → (addr : ℕ) → HasWord (cpu_load32 m c addr)
  unfolding cpu_load32
  cpu_load32-keeps v addr =
      (lawful.load32_word _ _, inter-IsValid (cpu_add_bus_cycles-IsValid v addr 4) _)

  cpu_load16-keeps :
      {c : Cpu S}
      → IsValid c
      → (addr : ℕ) → ((cpu_load16 m c addr).0 < 2 ^ 16) × IsValid (cpu_load16 m c addr).1
  unfolding cpu_load16
  cpu_load16-keeps v addr =
      (lawful.load16_half _ _, inter-IsValid (cpu_add_bus_cycles-IsValid v addr 2) _)

  cpu_load8-keeps :
      {c : Cpu S}
      → IsValid c
      → (addr : ℕ) → ((cpu_load8 m c addr).0 < 2 ^ 8) × IsValid (cpu_load8 m c addr).1
  unfolding cpu_load8
  cpu_load8-keeps v addr =
      (lawful.load8_byte _ _, inter-IsValid (cpu_add_bus_cycles-IsValid v addr 1) _)

pub pick-IsValid :
    {S : Type 0} (b : Bool) {c d : Cpu S} → IsValid c → IsValid d → IsValid (if b then c else d)
pick-IsValid true v w = v
pick-IsValid false v w = w

module _ {S : Type 0} (m : Machine S) {c : Cpu S} (v : IsValid c) where
  cpu_store32-IsValid : (addr val : ℕ) → IsValid (cpu_store32 m c addr val)
  unfolding cpu_store32
  cpu_store32-IsValid addr val =
      pick-IsValid _ v (inter-IsValid (cpu_add_bus_cycles-IsValid v addr 4) _)

  cpu_store16-IsValid : (addr val : ℕ) → IsValid (cpu_store16 m c addr val)
  unfolding cpu_store16
  cpu_store16-IsValid addr val =
      pick-IsValid _ v (inter-IsValid (cpu_add_bus_cycles-IsValid v addr 2) _)

  cpu_store8-IsValid : (addr val : ℕ) → IsValid (cpu_store8 m c addr val)
  unfolding cpu_store8
  cpu_store8-IsValid addr val =
      pick-IsValid _ v (inter-IsValid (cpu_add_bus_cycles-IsValid v addr 1) _)

module _ {S : Type 0} {m : Machine S} (lawful : IsMachine m) {c : Cpu S} (v : IsValid c)
    (op : ℕ) where
  effective-lt : IsWord (effective c op)
  effective-lt = omega arith

  pub op_lw-IsValid : IsValid (op_lw m c op)
  unfolding op_lw
  op_lw-IsValid =
      let (w, u) = cpu_load32-keeps lawful v (effective c op) in
      pick-IsValid _ (address_error-IsValid m v effective-lt exc_load_address_error)
        (delay_load-IsValid u (instr_t op) _ (omega arith) w)

  pub op_lh-IsValid : IsValid (op_lh m c op)
  unfolding op_lh
  op_lh-IsValid =
      let (w, u) = cpu_load16-keeps lawful v (effective c op) in
      pick-IsValid _ (address_error-IsValid m v effective-lt exc_load_address_error)
        (delay_load-IsValid u (instr_t op) _ (omega arith) (to_u32-lt _))

  pub op_lhu-IsValid : IsValid (op_lhu m c op)
  unfolding op_lhu
  op_lhu-IsValid =
      let (w, u) = cpu_load16-keeps lawful v (effective c op) in
      pick-IsValid _ (address_error-IsValid m v effective-lt exc_load_address_error)
        (delay_load-IsValid u (instr_t op) _ (omega arith) (omega arith))

  pub op_lb-IsValid : IsValid (op_lb m c op)
  unfolding op_lb
  op_lb-IsValid =
      let (w, u) = cpu_load8-keeps lawful v (effective c op) in
      delay_load-IsValid u (instr_t op) _ (omega arith) (to_u32-lt _)

  pub op_lbu-IsValid : IsValid (op_lbu m c op)
  unfolding op_lbu
  op_lbu-IsValid =
      let (w, u) = cpu_load8-keeps lawful v (effective c op) in
      delay_load-IsValid u (instr_t op) _ (omega arith) (omega arith)

  pub op_lwl-IsValid : IsValid (op_lwl m c op)
  unfolding op_lwl
  op_lwl-IsValid =
      let (w, u) = cpu_load32-keeps lawful v (clear_low (effective c op) 2) in
      delay_load-IsValid u (instr_t op) _ (omega arith) (lwl_merge-lt _ _ _ w)

  pub op_lwr-IsValid : IsValid (op_lwr m c op)
  unfolding op_lwr
  op_lwr-IsValid =
      let (w, u) = cpu_load32-keeps lawful v (clear_low (effective c op) 2) in
      delay_load-IsValid u (instr_t op) _ (omega arith) (lwr_merge-lt _ _ _ (out_reg-lt v _) w)

  pub op_sw-IsValid : IsValid (op_sw m c op)
  unfolding op_sw
  op_sw-IsValid =
      pick-IsValid _ (address_error-IsValid m v effective-lt exc_store_address_error)
        (cpu_store32-IsValid m v _ _)

  pub op_sh-IsValid : IsValid (op_sh m c op)
  unfolding op_sh
  op_sh-IsValid =
      pick-IsValid _ (address_error-IsValid m v effective-lt exc_store_address_error)
        (cpu_store16-IsValid m v _ _)

  pub op_sb-IsValid : IsValid (op_sb m c op)
  unfolding op_sb
  op_sb-IsValid = cpu_store8-IsValid m v _ _

  pub op_swl-IsValid : IsValid (op_swl m c op)
  unfolding op_swl
  op_swl-IsValid =
      let (w, u) = cpu_load32-keeps lawful v (clear_low (effective c op) 2) in
      pick-IsValid _ v (cpu_store32-IsValid m u _ _)

  pub op_swr-IsValid : IsValid (op_swr m c op)
  unfolding op_swr
  op_swr-IsValid =
      let (w, u) = cpu_load32-keeps lawful v (clear_low (effective c op) 2) in
      pick-IsValid _ v (cpu_store32-IsValid m u _ _)

  pub op_lwc2-IsValid : IsValid (op_lwc2 m c op)
  unfolding op_lwc2 gte_load
  op_lwc2-IsValid =
      let (w, u) = cpu_load32-keeps lawful (stall_gte-IsValid v) (effective c op) in
      pick-IsValid _ (address_error-IsValid m v effective-lt exc_load_address_error)
        (put_gte-IsValid u (gte_write_data-IsGte u.gte_valid (instr_t op) _ w))

  pub op_swc2-IsValid : IsValid (op_swc2 m c op)
  unfolding op_swc2
  op_swc2-IsValid =
      let u = stall_gte-IsValid v in
      pick-IsValid _ (address_error-IsValid m u (omega arith) exc_store_address_error)
        (cpu_store32-IsValid m u _ _)

-- A result that comes with a well-formed core.
pub record Leaves {S : Type 0} (r : ℕ × Cpu S) : Type 0 where
  pub valid : IsValid r.1

pub leaves : {S : Type 0} (n : ℕ) {c : Cpu S} → IsValid c → Leaves (n, c)
leaves n v = record { valid = v }

pub pick-Leaves :
    {S : Type 0} (b : Bool) {r t : ℕ × Cpu S} → Leaves r → Leaves t → Leaves (if b then r else t)
pick-Leaves true v w = v
pick-Leaves false v w = w

module _ {S : Type 0} (m : Machine S) {c : Cpu S} (v : IsValid c) where
  refill-IsValid : (addr : ℕ) → IsValid (refill m c addr).1
  unfolding refill
  refill-IsValid addr = assumption

  fetch_miss-IsValid : (o : Option ℕ) (addr : ℕ) → IsValid (fetch_miss m o c addr).1
  unfolding fetch_miss
  fetch_miss-IsValid (some w) addr = v
  fetch_miss-IsValid none addr = refill-IsValid addr

  cpu_fetch32-Leaves : (addr : ℕ) → Leaves (cpu_fetch32 m c addr)
  unfolding cpu_fetch32
  cpu_fetch32-Leaves addr =
      pick-Leaves (not (cpu_icache_is_cacheable addr)) (record { valid = inter-IsValid v _ })
        (record { valid = fetch_miss-IsValid (cpu_icache_lookup c.icache addr) addr })

  pub cpu_fetch32-IsValid : (addr : ℕ) → IsValid (cpu_fetch32 m c addr).1
  cpu_fetch32-IsValid addr = (cpu_fetch32-Leaves addr).valid
