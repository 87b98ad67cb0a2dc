-- ===== src/Interconnect/Regions.antt =====
-- interconnect.c: the cached and the uncached segment show the same addresses as the physical one.
use psx_emulator_em_c.Base.{
  ℕ, zero, suc, ◌+◌, ◌%◌, ◌^◌, ◌<◌, ◌≡◌, refl, ◌∙◌, arith, Bool, true, false, ◌==◌, if◌then◌else◌,
  get_or, ◌>>◌, bit_and, bit_and-low,
}
use psx_emulator_em_c.Interconnect.{Interconnect, Devices}
use psx_emulator_em_c.Interconnect.Map.{region_masks, mask_region, bus_unmapped_load}
use psx_emulator_em_c.Interconnect.Load.{
  interconnect_load32, interconnect_load16, interconnect_load8,
}
use psx_emulator_em_c.Interconnect.Store.{
  interconnect_store32, interconnect_store16, interconnect_store8,
}

-- The mask of each segment of 512 MiB as a remainder.
pub mask_region_lem :
    (addr : ℕ)
    → addr < 2 ^ 32
    → mask_region addr
      ≡ (if addr >> 29 == 4 then addr % 2 ^ 31 else if addr >> 29 == 5 then addr % 2 ^ 29 else addr)
unfolding mask_region
mask_region_lem addr h = segment (addr >> 29) refl
  where
    whole : bit_and addr 0xffff_ffff ≡ addr
    whole = bit_and-low 32 addr ∙ omega arith

    segment :
        (k : ℕ)
        → addr >> 29 ≡ k
        → bit_and addr (get_or region_masks k 0)
          ≡ (if k == 4 then addr % 2 ^ 31 else if k == 5 then addr % 2 ^ 29 else addr)
    segment zero e = whole
    segment (suc zero) e = whole
    segment (suc (suc zero)) e = whole
    segment (suc (suc (suc zero))) e = whole
    segment (suc (suc (suc (suc zero)))) e = bit_and-low 31 addr
    segment (suc (suc (suc (suc (suc zero))))) e = bit_and-low 29 addr
    segment (suc (suc (suc (suc (suc (suc zero)))))) e = whole
    segment (suc (suc (suc (suc (suc (suc (suc zero))))))) e = whole
    segment (suc (suc (suc (suc (suc (suc (suc (suc k)))))))) e = absurd (omega arith)

-- KSEG1, not cached, or KSEG0.
abbrev pub segment_base : Bool → ℕ
segment_base true = 0xa000_0000
segment_base false = 0x8000_0000

mask_region-physical : (phys : ℕ) → phys < 2 ^ 29 → mask_region phys ≡ phys
mask_region-physical phys h =
    let z : phys >> 29 ≡ 0 = omega arith in let e = mask_region_lem phys (omega arith) in rw z at e

mask_region-segment :
    (uncached : Bool) (phys : ℕ)
    → phys < 2 ^ 29
    → mask_region (segment_base uncached + phys) ≡ mask_region phys
mask_region-segment true phys h =
    let z : (0xa000_0000 + phys) >> 29 ≡ 5 = omega arith in
    let e = mask_region_lem (0xa000_0000 + phys) (omega arith) in
    let e' : mask_region (0xa000_0000 + phys) ≡ (0xa000_0000 + phys) % 2 ^ 29 = rw z at e in
    omega (arith, e', mask_region-physical phys h)
mask_region-segment false phys h =
    let z : (0x8000_0000 + phys) >> 29 ≡ 4 = omega arith in
    let e = mask_region_lem (0x8000_0000 + phys) (omega arith) in
    let e' : mask_region (0x8000_0000 + phys) ≡ (0x8000_0000 + phys) % 2 ^ 31 = rw z at e in
    omega (arith, e', mask_region-physical phys h)

aligned4 : (uncached : Bool) (phys : ℕ) → (segment_base uncached + phys) % 4 ≡ phys % 4
aligned4 true phys = omega arith
aligned4 false phys = omega arith

aligned2 : (uncached : Bool) (phys : ℕ) → (segment_base uncached + phys) % 2 ≡ phys % 2
aligned2 true phys = omega arith
aligned2 false phys = omega arith

-- A load or a store, of any width, through KSEG0 or KSEG1 does what it does at the physical
-- address, for every address of the 512 MiB that the segments show.
pub segment_mirrors :
    {D : Type 0} (dev : Devices D) (inter : Interconnect D) (uncached : Bool) (phys val : ℕ)
    → phys < 2 ^ 29
    → let addr = segment_base uncached + phys in
      (interconnect_load32 dev inter addr ≡ interconnect_load32 dev inter phys)
      × (interconnect_load16 dev inter addr ≡ interconnect_load16 dev inter phys)
      × (interconnect_load8 dev inter addr ≡ interconnect_load8 dev inter phys)
      × (interconnect_store32 dev inter addr val ≡ interconnect_store32 dev inter phys val)
      × (interconnect_store16 dev inter addr val ≡ interconnect_store16 dev inter phys val)
      × (interconnect_store8 dev inter addr val ≡ interconnect_store8 dev inter phys val)
unfolding interconnect_load32 interconnect_load16 interconnect_load8 interconnect_store32
    interconnect_store16 interconnect_store8 bus_unmapped_load
segment_mirrors dev inter uncached phys val h =
    let m = mask_region-segment uncached phys h in
    let a4 = aligned4 uncached phys in
    let a2 = aligned2 uncached phys in
    (rw (a4, m) refl, rw (a2, m) refl, rw m refl, rw (a4, m) refl, rw (a2, m) refl, rw m refl)
