-- ===== src/Cpu/Memory.antt =====
-- cpu.c: the core's accesses to memory, with their cost and the instruction cache.
use psx_emulator_em_c.Base.{
  ℕ, ◌-◌, not, Option, none, some, List, [], ◌∷◌, ltb, if◌then◌else◌, get_or, add32, clear_low,
}
use psx_emulator_em_c.BusTiming.{bus_access_cycles}
use psx_emulator_em_c.ICache.{
  cpu_icache_is_cacheable, cpu_icache_lookup, cpu_icache_fill, word_index,
  cpu_cache_isolation_blocks_store,
}
use psx_emulator_em_c.Cpu.State.{Machine, Cpu}

module _ {S : Type 0} where
  unfoldable pub cpu_add_bus_cycles : Cpu S → ℕ → ℕ → Cpu S
  cpu_add_bus_cycles c addr width_bytes =
      let access_cycles = bus_access_cycles addr width_bytes in
      if ltb 2 access_cycles
      then record c { extra_cycles = add32 c.extra_cycles (access_cycles - 2) }
      else c

module _ {S : Type 0} (m : Machine S) where
  -- The value and the core whose interconnect has seen the load.
  abbrev pub bus_load32 : Cpu S → ℕ → ℕ × Cpu S
  bus_load32 c addr = let (v, s) = m.load32 c.inter addr in (v, record c { inter = s })

  unfoldable pub cpu_load32 : Cpu S → ℕ → ℕ × Cpu S
  unfolding cpu_add_bus_cycles
  cpu_load32 c addr = bus_load32 (cpu_add_bus_cycles c addr 4) addr

  unfoldable pub cpu_load16 : Cpu S → ℕ → ℕ × Cpu S
  unfolding cpu_add_bus_cycles
  cpu_load16 c addr =
      let c = cpu_add_bus_cycles c addr 2 in
      let (v, s) = m.load16 c.inter addr in (v, record c { inter = s })

  unfoldable pub cpu_load8 : Cpu S → ℕ → ℕ × Cpu S
  unfolding cpu_add_bus_cycles
  cpu_load8 c addr =
      let c = cpu_add_bus_cycles c addr 1 in
      let (v, s) = m.load8 c.inter addr in (v, record c { inter = s })

  unfoldable pub cpu_store32 : Cpu S → ℕ → ℕ → Cpu S
  unfolding cpu_add_bus_cycles
  cpu_store32 c addr val =
      if cpu_cache_isolation_blocks_store c.sr addr
      then c
      else record (cpu_add_bus_cycles c addr 4) { inter = m.store32 c.inter addr val }

  unfoldable pub cpu_store16 : Cpu S → ℕ → ℕ → Cpu S
  unfolding cpu_add_bus_cycles
  cpu_store16 c addr val =
      if cpu_cache_isolation_blocks_store c.sr addr
      then c
      else record (cpu_add_bus_cycles c addr 2) { inter = m.store16 c.inter addr val }

  unfoldable pub cpu_store8 : Cpu S → ℕ → ℕ → Cpu S
  unfolding cpu_add_bus_cycles
  cpu_store8 c addr val =
      if cpu_cache_isolation_blocks_store c.sr addr
      then c
      else record (cpu_add_bus_cycles c addr 1) { inter = m.store8 c.inter addr val }

  -- The loop of `cpu_fetch32`, unrolled: the four words of a line, in order.
  unfoldable pub fetch_line : Cpu S → ℕ → List ℕ × Cpu S
  fetch_line c line_addr =
      let (w0, c) = bus_load32 c line_addr in
      let (w1, c) = bus_load32 c (add32 line_addr 4) in
      let (w2, c) = bus_load32 c (add32 line_addr 8) in
      let (w3, c) = bus_load32 c (add32 line_addr 12) in (w0 ∷ w1 ∷ w2 ∷ w3 ∷ [], c)

  unfoldable pub refill : Cpu S → ℕ → ℕ × Cpu S
  unfolding fetch_line
  refill c addr =
      let line_addr = clear_low addr 4 in
      let (words, c) = fetch_line c line_addr in
      (
        get_or words (word_index addr) 0,
        record c { icache = cpu_icache_fill c.icache line_addr words },
      )

  unfoldable pub fetch_miss : Option ℕ → Cpu S → ℕ → ℕ × Cpu S
  unfolding refill
  fetch_miss (some value) c addr = (value, c)
  fetch_miss none c addr = refill c addr

  unfoldable pub cpu_fetch32 : Cpu S → ℕ → ℕ × Cpu S
  unfolding fetch_miss
  cpu_fetch32 c addr =
      if not (cpu_icache_is_cacheable addr)
      then bus_load32 c addr
      else fetch_miss (cpu_icache_lookup c.icache addr) c addr
