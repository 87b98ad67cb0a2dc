-- ===== src/Interconnect/Totality.antt =====
-- interconnect.c: an aligned access is always served, inside of the arrays; any other ends the
-- program.
use psx_emulator_em_c.Base.{
  ℕ, ◌%◌, ◌^◌, ◌<◌, ◌≡◌, refl, ◌∙◌, arith, Bool, true, false, Option, none, some, List, All, ◌==◌,
  if◌then◌else◌, ==_iff, u8, u16,
}
use psx_emulator_em_c.Interconnect.{Interconnect, Devices}
use psx_emulator_em_c.Interconnect.Map.{Range, route, mask_region}
use psx_emulator_em_c.Interconnect.Load.{
  interconnect_load32, interconnect_load16, interconnect_load8,
}
use psx_emulator_em_c.Interconnect.Store.{
  interconnect_store32, interconnect_store16, interconnect_store8,
}
use psx_emulator_em_c.Interconnect.Visited.{Succeeds}
use psx_emulator_em_c.Interconnect.Regions.{mask_region_lem}
use psx_emulator_em_c.Interconnect.Serving.{ServesIf, route-succeeds}
use psx_emulator_em_c.Interconnect.LoadServing.{
  load32_map-Serves, load16_map-Serves, load8_map-Serves,
}
use psx_emulator_em_c.Interconnect.StoreServing.{
  TakesCommands, Open, store32_map-ServesIf, store16_map-ServesIf, store8_map-ServesIf,
}

-- Masking keeps the two lowest digits.
pub mask_region-mod4 : (addr : ℕ) → addr < 2 ^ 32 → mask_region addr % 4 ≡ addr % 4
mask_region-mod4 addr h = ground (arith, mask_region_lem addr h)

mask_region-mod2 : (addr : ℕ) → addr < 2 ^ 32 → mask_region addr % 2 ≡ addr % 2
mask_region-mod2 addr h = omega (arith, mask_region-mod4 addr h)

-- The access ends the program exactly where the address is not a multiple of the width.
abbrev WhenAligned : {A : Type 0} → Bool → Option A → Type 0
WhenAligned {A = A} aligned o = if aligned then ((a : A) × (o ≡ some a)) else (o ≡ none)

when_aligned :
    (aligned : Bool) {A : Type 0} (o : Option A)
    → (aligned ≡ true → Succeeds o)
    → WhenAligned aligned (if aligned then o else none)
when_aligned true o s = s refl
when_aligned false o s = refl

module _ {D : Type 0} (dev : Devices D) (inter : Interconnect D) (addr : ℕ)
    (h : addr < 2 ^ 32) where
  on_map :
      (P : ℕ → Type 0) {A : Type 0} (rs : List (Range × (ℕ → Option A))) (u : Option A)
      → All (ServesIf P) rs
      → P (mask_region addr)
      → Succeeds u
      → Succeeds (route rs (mask_region addr) u)
  on_map P rs u s al = route-succeeds P rs (mask_region addr) s al

  multiple_of_4 : (addr % 4 == 0) ≡ true → mask_region addr % 4 ≡ 0
  multiple_of_4 e = mask_region-mod4 addr h ∙ (==_iff (addr % 4) 0).0 e

  multiple_of_2 : (addr % 2 == 0) ≡ true → mask_region addr % 2 ≡ 0
  multiple_of_2 e = mask_region-mod2 addr h ∙ (==_iff (addr % 2) 0).0 e

  -- At a 32-bit address a load of a word gives a value where the address is a multiple of 4 and ends
  -- the program everywhere else, a load of a half the same with 2, and a load of a byte always gives
  -- a value; no load leaves one of the arrays.
  pub load_total :
      WhenAligned (addr % 4 == 0) (interconnect_load32 dev inter addr)
      × WhenAligned (addr % 2 == 0) (interconnect_load16 dev inter addr)
      × WhenAligned true (interconnect_load8 dev inter addr)
  unfolding interconnect_load32 interconnect_load16 interconnect_load8
  load_total = (
    when_aligned (addr % 4 == 0) _ (λ e.
        on_map (λ a. a % 4 ≡ 0) _ _ (load32_map-Serves dev inter) (multiple_of_4 e) (_, refl)),
    when_aligned (addr % 2 == 0) _ (λ e.
        on_map (λ a. a % 2 ≡ 0) _ _ (load16_map-Serves dev inter) (multiple_of_2 e) (_, refl)),
    on_map (λ a. a % 1 ≡ 0) _ _ (load8_map-Serves dev inter) (omega arith) (_, refl),
  )

  -- At a 32-bit address a store of a word gives a state where the address is a multiple of 4 and ends
  -- the program everywhere else, a store of a half the same with 2, and a store of a byte always
  -- gives a state, also where it starts a DMA transfer; no store leaves one of the arrays. If the
  -- address is in the register GP1 of the graphics chip, the condition is that it takes every command
  -- in this state; at all other addresses there is none.
  pub store_total :
      (val : ℕ)
      → TakesCommands dev inter (mask_region addr)
      → WhenAligned (addr % 4 == 0) (interconnect_store32 dev inter addr val)
        × WhenAligned (addr % 2 == 0) (interconnect_store16 dev inter addr val)
        × WhenAligned true (interconnect_store8 dev inter addr val)
  unfolding interconnect_store32 interconnect_store16 interconnect_store8
  store_total val takes = (
    when_aligned (addr % 4 == 0) _ (λ e.
        on_map (Open dev inter 4) _ _ (store32_map-ServesIf dev inter val) (multiple_of_4 e, takes)
          (_, refl)),
    when_aligned (addr % 2 == 0) _ (λ e.
        on_map (Open dev inter 2) _ _ (store16_map-ServesIf dev inter (u16 val))
          (multiple_of_2 e, takes) (_, refl)),
    on_map (Open dev inter 1) _ _ (store8_map-ServesIf dev inter (u8 val)) (omega arith, takes)
        (_, refl),
  )
