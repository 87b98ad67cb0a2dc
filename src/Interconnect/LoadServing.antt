-- ===== src/Interconnect/LoadServing.antt =====
-- interconnect.c: every entry of the maps for loads serves every aligned address of its range.
use psx_emulator_em_c.Base.{ℕ, refl, arith, Option, All, ◌&◌, low_bits}
use psx_emulator_em_c.Bios.{bios_size, bios_load32, bios_load16, bios_load8}
use psx_emulator_em_c.Interconnect.{Interconnect, Devices}
use psx_emulator_em_c.Interconnect.Registers.{
  scratch_size, scratch_load32, scratch_load16, scratch_load8,
}
use psx_emulator_em_c.Interconnect.Load.{pure, load32_map, load16_map, load8_map}
use psx_emulator_em_c.Interconnect.Visited.{Succeeds, load_word}
use psx_emulator_em_c.Interconnect.Serving.{
  Serves, word_of-succeeds, half_of-succeeds, byte_of-succeeds, dma_reg_read-succeeds,
  dma_reg_read16-succeeds, dma_reg_read8-succeeds, load_half, load_byte,
}

module _ {D : Type 0} (dev : Devices D) (inter : Interconnect D) where
  pure-succeeds : (o : Option ℕ) → Succeeds o → Succeeds (pure dev inter o)
  pure-succeeds o s = rw (s.1) (_, refl)

  pub load32_map-Serves : All (Serves 4) (load32_map dev inter)
  unfolding bios_load32 scratch_load32
  load32_map-Serves =
      (λ off h al. (_, refl))
      & (λ off h al. pure-succeeds _ (word_of-succeeds _ _ off (omega arith)))
      & (λ off h al. (_, refl))
      & (λ off h al. pure-succeeds _ (word_of-succeeds _ _ off (omega arith)))
      & (λ off h al. pure-succeeds _ (load_word inter.ram (low_bits off 21) (omega arith)))
      & (λ off h al. (_, refl))
      & (λ off h al. (_, refl))
      & (λ off h al. (_, refl))
      & (λ off h al. pure-succeeds _ (dma_reg_read-succeeds inter.dma off))
      & (λ off h al. (_, refl))
      & (λ off h al. (_, refl))
      & (λ off h al. (_, refl))
      & (λ off h al. (_, refl))
      & (λ off h al. (_, refl))
      & (λ off h al. (_, refl))
      & (λ off h al. (_, refl))
      & (λ off h al. (_, refl))
      & tt

  pub load16_map-Serves : All (Serves 2) (load16_map dev inter)
  unfolding bios_load16 scratch_load16
  load16_map-Serves =
      (λ off h al. (_, refl))
      & (λ off h al. (_, refl))
      & (λ off h al. pure-succeeds _ (half_of-succeeds _ _ off (omega arith)))
      & (λ off h al. pure-succeeds _ (half_of-succeeds _ _ off (omega arith)))
      & (λ off h al. pure-succeeds _ (load_half inter.ram (low_bits off 21) (omega arith)))
      & (λ off h al. (_, refl))
      & (λ off h al. (_, refl))
      & (λ off h al. (_, refl))
      & (λ off h al. pure-succeeds _ (dma_reg_read16-succeeds inter.dma off))
      & (λ off h al. (_, refl))
      & (λ off h al. (_, refl))
      & (λ off h al. (_, refl))
      & (λ off h al. (_, refl))
      & (λ off h al. (_, refl))
      & (λ off h al. (_, refl))
      & (λ off h al. (_, refl))
      & (λ off h al. (_, refl))
      & tt

  pub load8_map-Serves : All (Serves 1) (load8_map dev inter)
  unfolding bios_load8 scratch_load8
  load8_map-Serves =
      (λ off h al. (_, refl))
      & (λ off h al. pure-succeeds _ (byte_of-succeeds bios_size inter.bios.data_at off h))
      & (λ off h al. pure-succeeds _ (byte_of-succeeds scratch_size inter.scratch_at off h))
      & (λ off h al. pure-succeeds _ (load_byte inter.ram (low_bits off 21) (omega arith)))
      & (λ off h al. (_, refl))
      & (λ off h al. (_, refl))
      & (λ off h al. (_, refl))
      & (λ off h al. (_, refl))
      & (λ off h al. (_, refl))
      & (λ off h al. (_, refl))
      & (λ off h al. (_, refl))
      & (λ off h al. (_, refl))
      & (λ off h al. pure-succeeds _ (dma_reg_read8-succeeds inter.dma off))
      & (λ off h al. (_, refl))
      & (λ off h al. (_, refl))
      & (λ off h al. (_, refl))
      & (λ off h al. (_, refl))
      & tt
