-- ===== src/BusTiming.antt =====
-- bus_timing.c: the cost of a bus access in CPU cycles, by region and width.
pub mod Laws
use psx_emulator_em_c.Base.{
  ℕ, ◌+◌, ◌*◌, ◌/◌, ◌%◌, ◌^◌, Bool, ◌&&◌, List, [], ◌∷◌, ltb, leb, ◌==◌, if◌then◌else◌, get_or, u32,
  ◌>>◌, bit_and,
}

abbrev pub region_mask : List ℕ
region_mask =
    0xffff_ffff ∷ 0xffff_ffff ∷ 0xffff_ffff ∷ 0xffff_ffff ∷ 0x7fff_ffff ∷ 0x1fff_ffff ∷ 0xffff_ffff
    ∷ 0xffff_ffff ∷ []

unfoldable pub physical_address : ℕ → ℕ
physical_address addr = bit_and addr (get_or region_mask (addr >> 29) 0)

unfoldable pub in_range : ℕ → ℕ → ℕ → Bool
in_range addr start length = leb start addr && ltb addr (u32 (start + length))

unfoldable pub by_width : ℕ → ℕ → ℕ → ℕ → ℕ
by_width width_bytes byte_cycles half_cycles word_cycles =
    if width_bytes == 1 then byte_cycles else if width_bytes == 2 then half_cycles else word_cycles

-- The ladder of `bus_access_cycles` over the physical address.
unfoldable pub region_cycles : ℕ → ℕ → ℕ
region_cycles a width =
    if in_range a 0x0000_0000 (8 * 1024 * 1024)
    then 5
    else if in_range a 0x1f80_0000 1024
    then 2
    else if in_range a 0x1fc0_0000 (512 * 1024)
    then by_width width 8 13 25
    else if in_range a 0x1f00_0000 (512 * 1024)
    then by_width width 7 14 26
    else if in_range a 0x1f80_2000 66
    then by_width width 11 26 56
    else if in_range a 0x1fa0_0000 (2 * 1024 * 1024)
    then by_width width 7 6 10
    else if in_range a 0x1f80_1800 4
    then by_width width 8 14 26
    else if in_range a 0x1f80_1c00 640
    then by_width width 18 18 39
    else if in_range a 0xfffe_0130 4
    then 2
    else if in_range a 0x1f80_1000 0x1000
    then 3
    else 3

unfoldable pub bus_access_cycles : ℕ → ℕ → ℕ
bus_access_cycles addr width_bytes = region_cycles (physical_address addr) width_bytes
