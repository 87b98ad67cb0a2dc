-- ===== src/Interconnect/MainMemory.antt =====
-- interconnect.c: main memory as the bus shows it, in its mirrors and segments.
use psx_emulator_em_c.Base.{
  ℕ, ◌%◌, ◌^◌, ◌<◌, ◌≡◌, refl, sym, ap, ◌∙◌, arith, none, some, List, ◌∷◌, low_bits,
}
use psx_emulator_em_c.Ram.{ram_load32, ram_store32}
use psx_emulator_em_c.Ram.Laws.{ram_load-ram_store32}
use psx_emulator_em_c.Interconnect.{Interconnect, Devices}
use psx_emulator_em_c.Interconnect.Map.{Range, range_contains, route, mask_region, map_ram}
use psx_emulator_em_c.Interconnect.Load.{pure, interconnect_load32}
use psx_emulator_em_c.Interconnect.Store.{put_ram, interconnect_store32}
use psx_emulator_em_c.Interconnect.Totality.{mask_region-mod4}

below : (r : Range) (addr : ℕ) → addr < r.start → range_contains r addr ≡ none
below r addr h = ground arith

route_skip {ℓ} :
    {A : Type ℓ} (r : Range × (ℕ → A)) (rs : List (Range × (ℕ → A))) (addr : ℕ) (u : A)
    → addr < (r.0).start
    → route (r ∷ rs) addr u ≡ route rs addr u
unfolding route
route_skip r rs addr u h = rw (route, below r.0 addr h) refl

-- An address of the 8 MiB of main memory is served by the entry for it, with itself as the offset.
route_ram {ℓ} :
    {A : Type ℓ} (f : ℕ → A) (rs : List (Range × (ℕ → A))) (addr : ℕ) (u : A)
    → addr < 2 ^ 23
    → route ((map_ram, f) ∷ rs) addr u ≡ f addr
unfolding route
route_ram f rs addr u h =
    let e : range_contains map_ram addr ≡ some addr = ground arith in rw (route, e) refl

module _ {D : Type 0} (dev : Devices D) (inter : Interconnect D) (addr : ℕ)
    (h : mask_region addr < 2 ^ 23) (al : addr % 4 ≡ 0) where
  load32_ram :
      interconnect_load32 dev inter addr
      ≡ pure dev inter (ram_load32 inter.ram (low_bits (mask_region addr) 21))
  unfolding interconnect_load32
  load32_ram = rw (al) (
      route_skip _ _ _ _ (omega arith)
      ∙ route_skip _ _ _ _ (omega arith)
      ∙ route_skip _ _ _ _ (omega arith)
      ∙ route_skip _ _ _ _ (omega arith)
      ∙ route_ram _ _ _ _ h)

  store32_ram :
      (val : ℕ)
      → interconnect_store32 dev inter addr val
        ≡ put_ram dev inter (ram_store32 inter.ram (low_bits (mask_region addr) 21) val)
  unfolding interconnect_store32
  store32_ram val = rw (al) (
      route_skip _ _ _ _ (omega arith)
      ∙ route_skip _ _ _ _ (omega arith)
      ∙ route_skip _ _ _ _ (omega arith)
      ∙ route_ram _ _ _ _ h)

-- Main memory through the bus: a word of 32 bits stored at an address a, a multiple of 4, that the
-- segments map into the 8 MiB of main memory is loaded again at every address b that the segments
-- map there too and that agrees with a modulo 2 MiB after that: in all segments and mirrors.
pub load32-store32 :
    {D : Type 0} (dev : Devices D) (inter : Interconnect D) (a b val : ℕ)
    → a < 2 ^ 32
    → b < 2 ^ 32
    → a % 4 ≡ 0
    → mask_region a < 2 ^ 23
    → mask_region b < 2 ^ 23
    → mask_region a % 2 ^ 21 ≡ mask_region b % 2 ^ 21
    → val < 2 ^ 32
    → (inter' : Interconnect D) × (interconnect_store32 dev inter a val ≡ some inter')
      × (interconnect_load32 dev inter' b ≡ some (val, inter'))
load32-store32 dev inter a b val ha hb al ma mb same hv =
    let x = mask_region a % 2 ^ 21 in
    let x4 : x % 4 ≡ 0 = omega (arith, mask_region-mod4 a ha) in
    let b4 : b % 4 ≡ 0 = omega (arith, mask_region-mod4 b hb) in
    let m = ram_load-ram_store32 inter.ram x val (omega arith) hv in
    let inter' = record inter { ram = m.0 } in
    (
      inter',
      store32_ram dev inter a ma al val ∙ ap (put_ram dev inter) m.1,
      load32_ram dev inter' b mb b4
          ∙ ap (λ (o : ℕ). pure dev inter' (ram_load32 m.0 o)) (sym same)
          ∙ ap (pure dev inter') m.2,
    )
