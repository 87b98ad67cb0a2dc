-- ===== src/Interconnect/Map.antt =====
-- interconnect.c: the memory map; bus_policy.c: what an address that nothing is mapped to reads as.
use psx_emulator_em_c.Base.{
  ℕ, ◌+◌, ◌-◌, ◌*◌, ◌&&◌, Option, none, some, List, [], ◌∷◌, ltb, leb, ◌==◌, if◌then◌else◌, get_or,
  ◌>>◌, bit_and,
}

pub record Range : Type 0 where
  pub start : ℕ
  pub length : ℕ

-- `some offset` is the return value 1.
abbrev pub range_contains : Range → ℕ → Option ℕ
range_contains r addr =
    if leb r.start addr && ltb addr (r.start + r.length) then some (addr - r.start) else none

abbrev pub map_ram : Range
map_ram = record { start = 0x0000_0000; length = 8 * 1024 * 1024 }

abbrev pub map_bios : Range
map_bios = record { start = 0x1fc0_0000; length = 512 * 1024 }

abbrev pub map_scratchpad : Range
map_scratchpad = record { start = 0x1f80_0000; length = 1024 }

abbrev pub map_mem_control : Range
map_mem_control = record { start = 0x1f80_1000; length = 36 }

abbrev pub map_ram_size : Range
map_ram_size = record { start = 0x1f80_1060; length = 4 }

abbrev pub map_cache_ctrl : Range
map_cache_ctrl = record { start = 0xfffe_0130; length = 4 }

abbrev pub map_spu : Range
map_spu = record { start = 0x1f80_1c00; length = 640 }

abbrev pub map_expansion2 : Range
map_expansion2 = record { start = 0x1f80_2000; length = 66 }

abbrev pub map_expansion1 : Range
map_expansion1 = record { start = 0x1f00_0000; length = 512 * 1024 }

abbrev pub map_expansion3 : Range
map_expansion3 = record { start = 0x1fa0_0000; length = 2 * 1024 * 1024 }

abbrev pub map_irq_control : Range
map_irq_control = record { start = 0x1f80_1070; length = 8 }

abbrev pub map_timers : Range
map_timers = record { start = 0x1f80_1100; length = 16 * 3 }

abbrev pub map_dma : Range
map_dma = record { start = 0x1f80_1080; length = 0x80 }

abbrev pub map_gpu : Range
map_gpu = record { start = 0x1f80_1810; length = 8 }

abbrev pub map_mdec : Range
map_mdec = record { start = 0x1f80_1820; length = 8 }

abbrev pub map_cdrom : Range
map_cdrom = record { start = 0x1f80_1800; length = 4 }

abbrev pub map_sio : Range
map_sio = record { start = 0x1f80_1040; length = 32 }

abbrev pub region_masks : List ℕ
region_masks =
    0xffff_ffff ∷ 0xffff_ffff ∷ 0xffff_ffff ∷ 0xffff_ffff ∷ 0x7fff_ffff ∷ 0x1fff_ffff ∷ 0xffff_ffff
    ∷ 0xffff_ffff ∷ []

unfoldable pub mask_region : ℕ → ℕ
mask_region addr = bit_and addr (get_or region_masks (addr >> 29) 0)

-- The chain of `if (range_contains(...)) return ...;`: the first range that contains the address
-- is the one that serves it, with the offset in it.
unfoldable pub route {ℓ} : {A : Type ℓ} → List (Range × (ℕ → A)) → ℕ → A → A
route [] abs unmapped = unmapped
route (r ∷ rs) abs unmapped = elim (range_contains r.0 abs) [
  | some off ↦ r.1 off
  | none ↦ route rs abs unmapped
]

-- `bus_unmapped_load` without its log: `open_bus_value`.
unfoldable pub bus_unmapped_load : ℕ → ℕ → ℕ
bus_unmapped_load addr width_bits =
    if width_bits == 8 then 0xff else if width_bits == 16 then 0xffff else 0xffff_ffff
