-- ===== src/BusTiming/Laws.antt =====
-- Bounds on the cost of a bus access, and the mirrors of the address space.
use psx_emulator_em_c.Base.{
  ℕ, ◌+◌, ◌^◌, ◌<◌, ◌≤◌, ◌≡◌, ap, ◌∙◌, sym, arith, Bool, true, false, ◌==◌, if◌then◌else◌, ◌>>◌,
  bit_and-low,
}
use psx_emulator_em_c.BusTiming.{physical_address, by_width, region_cycles, bus_access_cycles}

abbrev Cost : ℕ → Type 0
Cost x = (2 ≤ x) × (x ≤ 56)

pick-Cost : (b : Bool) (x y : ℕ) → Cost x → Cost y → Cost (if b then x else y)
pick-Cost true x y hx hy = hx
pick-Cost false x y hx hy = hy

by_width-Cost : (w x y z : ℕ) → Cost x → Cost y → Cost z → Cost (by_width w x y z)
unfolding by_width
by_width-Cost w x y z hx hy hz = pick-Cost (w == 1) x _ hx (pick-Cost (w == 2) y z hy hz)

region_cycles-Cost : (a w : ℕ) → Cost (region_cycles a w)
unfolding region_cycles
region_cycles-Cost a w = ground (
  arith,
  by_width-Cost w 8 13 25,
  by_width-Cost w 7 14 26,
  by_width-Cost w 11 26 56,
  by_width-Cost w 7 6 10,
  by_width-Cost w 8 14 26,
  by_width-Cost w 18 18 39,
)

low_address : (addr : ℕ) → addr < 2 ^ 29 → physical_address addr ≡ addr
unfolding physical_address
low_address addr h =
    let zeroth : addr >> 29 ≡ 0 = omega arith in rw zeroth (bit_and-low 32 addr ∙ omega arith)

cached_address : (addr : ℕ) → addr < 2 ^ 29 → physical_address (addr + 0x8000_0000) ≡ addr
unfolding physical_address
cached_address addr h =
    let fourth : (addr + 0x8000_0000) >> 29 ≡ 4 = omega arith in
    rw fourth (bit_and-low 31 (addr + 0x8000_0000) ∙ omega arith)

uncached_address : (addr : ℕ) → addr < 2 ^ 29 → physical_address (addr + 0xa000_0000) ≡ addr
unfolding physical_address
uncached_address addr h =
    let fifth : (addr + 0xa000_0000) >> 29 ≡ 5 = omega arith in
    rw fifth (bit_and-low 29 (addr + 0xa000_0000) ∙ omega arith)

-- Every access costs from 2 to 56 cycles, at any address and width.
pub bus_access_cycles_bounds :
    (addr width : ℕ) → (2 ≤ bus_access_cycles addr width) × (bus_access_cycles addr width ≤ 56)
unfolding bus_access_cycles
bus_access_cycles_bounds addr width = region_cycles-Cost (physical_address addr) width

-- The cached mirror from 0x8000_0000 and the uncached one from 0xa000_0000 cost what the lowest
-- 512 MiB cost.
pub bus_access_cycles_mirror :
    (addr width : ℕ)
    → addr < 2 ^ 29
    → (bus_access_cycles (addr + 0x8000_0000) width ≡ bus_access_cycles addr width)
      × (bus_access_cycles (addr + 0xa000_0000) width ≡ bus_access_cycles addr width)
unfolding bus_access_cycles
bus_access_cycles_mirror addr width h = (
  ap (λ a. region_cycles a width) (cached_address addr h ∙ sym (low_address addr h)),
  ap (λ a. region_cycles a width) (uncached_address addr h ∙ sym (low_address addr h)),
)
