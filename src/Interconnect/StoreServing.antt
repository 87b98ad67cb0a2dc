-- ===== src/Interconnect/StoreServing.antt =====
-- interconnect.c: every entry of the maps for stores serves every aligned address of its range.
use psx_emulator_em_c.Base.{
  ℕ, ◌+◌, ◌<◌, ◌≡◌, refl, arith, true, Option, All, ltb, lt→ltb, leb, ◌==◌, ==_iff, ◌%◌, Bool-cases,
  if-cases, inl, inr, ◌&◌, ◌>>◌, low_bits, clear_low,
}
use psx_emulator_em_c.Channel.{Channel, channel_active}
use psx_emulator_em_c.Dma.{Port, dma_channel}
use psx_emulator_em_c.Ram.{◌>>=◌, Ram}
use psx_emulator_em_c.Interconnect.{Interconnect, Devices}
use psx_emulator_em_c.Interconnect.Registers.{
  gpu_reg_write, gpu_reg_write16, gpu_reg_write8, scratch_store32, scratch_store16, scratch_store8,
}
use psx_emulator_em_c.Interconnect.Control.{
  major, minor, write_channel, start_channel, dma_reg_write, dma_reg_write16, dma_reg_write8,
}
use psx_emulator_em_c.Interconnect.Store.{put_ram, put_gpu, store32_map, store16_map, store8_map}
use psx_emulator_em_c.Interconnect.Transfer.{put_channel}
use psx_emulator_em_c.Interconnect.Termination.{do_dma_ends}
use psx_emulator_em_c.Interconnect.Visited.{Option-cases, Succeeds, store_word}
use psx_emulator_em_c.Interconnect.Serving.{
  ServesIf, port-succeeds, dma_reg_read-succeeds, bind-succeeds, store_byte, store_half,
}

module _ {D : Type 0} (dev : Devices D) (inter : Interconnect D) where
  put_ram-succeeds : (o : Option Ram) → Succeeds o → Succeeds (put_ram dev inter o)
  put_ram-succeeds o s = rw (s.1) (_, refl)

  scratch_store-succeeds :
      (i : Interconnect D) (off val : ℕ) → off < 1024 → Succeeds (scratch_store8 i off val)
  unfolding scratch_store8
  scratch_store-succeeds i off val h =
      let t : ltb off 1024 ≡ true = lt→ltb off 1024 h in rw t (_, refl)

  scratch_store16-succeeds :
      (off val : ℕ) → off + 1 < 1024 → Succeeds (scratch_store16 inter off val)
  unfolding scratch_store16
  scratch_store16-succeeds off val h =
      bind-succeeds _ _ (scratch_store-succeeds inter off val (omega arith))
        (λ i. scratch_store-succeeds i (off + 1) (val >> 8) h)

  scratch_store32-succeeds :
      (off val : ℕ) → off + 3 < 1024 → Succeeds (scratch_store32 inter off val)
  unfolding scratch_store32
  scratch_store32-succeeds off val h =
      bind-succeeds _ _ (scratch_store-succeeds inter off val (omega arith)) (λ i.
        bind-succeeds _ _ (scratch_store-succeeds i (off + 1) (val >> 8) (omega arith)) (λ j.
          bind-succeeds _ _ (scratch_store-succeeds j (off + 2) (val >> 16) (omega arith))
            (λ k. scratch_store-succeeds k (off + 3) (val >> 24) h)))

  -- A write that starts a transfer succeeds because every transfer ends.
  start_channel-succeeds : (port : Port) (ch : Channel) → Succeeds (start_channel dev inter port ch)
  start_channel-succeeds port ch =
      let e = do_dma_ends dev (record inter { dma = put_channel inter.dma port ch }) port in
      if-cases Succeeds (channel_active ch) (e.0, e.1) (_, refl)

  dma_reg_write-succeeds : (off val : ℕ) → Succeeds (dma_reg_write dev inter off val)
  unfolding dma_reg_write
  dma_reg_write-succeeds off val = elim (Bool-cases (leb (major off) 6)) [
    | inl channel ↦
        let port = port-succeeds (major off) (ground arith) in
        let o = write_channel (dma_channel inter.dma port.0) off val in
        rw (dma_reg_write, channel)
          (rw (port.1) (elim (Option-cases o) [
            | inl bad ↦ rw (◌>>=◌, bad) (_, refl)
            | inr ch ↦ rw (◌>>=◌, ch.1) (start_channel-succeeds port.0 ch.0)
          ]))
    | inr other ↦
        rw (dma_reg_write, other)
          (if-cases Succeeds (minor off == 0) (_, refl)
            (if-cases Succeeds (minor off == 4) (_, refl) (_, refl)))
  ]

  dma_reg_write16-succeeds : (off val : ℕ) → Succeeds (dma_reg_write16 dev inter off val)
  unfolding dma_reg_write16
  dma_reg_write16-succeeds off val =
      bind-succeeds _ _ (dma_reg_read-succeeds inter.dma (clear_low off 2))
        (λ w. dma_reg_write-succeeds (clear_low off 2) _)

  dma_reg_write8-succeeds : (off val : ℕ) → Succeeds (dma_reg_write8 dev inter off val)
  unfolding dma_reg_write8
  dma_reg_write8-succeeds off val =
      bind-succeeds _ _ (dma_reg_read-succeeds inter.dma (clear_low off 2))
        (λ w. dma_reg_write-succeeds (clear_low off 2) _)

  -- If the word at an address is the register GP1, it takes every command in this state.
  abbrev pub TakesCommands : ℕ → Type 0
  TakesCommands a =
      clear_low a 2 ≡ 0x1f80_1814 → (val : ℕ) → Succeeds (dev.gpu_gp1 inter.devices val)

  -- The addresses that a store of n bytes reaches without ending the program.
  abbrev pub Open : ℕ → ℕ → Type 0
  Open n a = (a % n ≡ 0) × TakesCommands a

  put_gpu-succeeds : (o : Option D) → Succeeds o → Succeeds (put_gpu dev inter o)
  put_gpu-succeeds o s = rw (s.1) (_, refl)

  gpu_reg_write-succeeds :
      (off val : ℕ)
      → (off ≡ 4 → (v : ℕ) → Succeeds (dev.gpu_gp1 inter.devices v))
      → Succeeds (gpu_reg_write dev inter.devices off val)
  unfolding gpu_reg_write
  gpu_reg_write-succeeds off val takes = elim (Bool-cases (off == 4)) [
    | inl e ↦ if-cases Succeeds (off == 0) (_, refl) (rw e (takes ((==_iff off 4).0 e) val))
    | inr e ↦ if-cases Succeeds (off == 0) (_, refl) (rw e (_, refl))
  ]

  gpu_reg_write16-succeeds :
      (off val : ℕ)
      → (clear_low off 2 ≡ 4 → (v : ℕ) → Succeeds (dev.gpu_gp1 inter.devices v))
      → Succeeds (gpu_reg_write16 dev inter.devices off val)
  unfolding gpu_reg_write16
  gpu_reg_write16-succeeds off val = gpu_reg_write-succeeds (clear_low off 2) _

  gpu_reg_write8-succeeds :
      (off val : ℕ)
      → (clear_low off 2 ≡ 4 → (v : ℕ) → Succeeds (dev.gpu_gp1 inter.devices v))
      → Succeeds (gpu_reg_write8 dev inter.devices off val)
  unfolding gpu_reg_write8
  gpu_reg_write8-succeeds off val = gpu_reg_write-succeeds (clear_low off 2) _

  pub store32_map-ServesIf : (val : ℕ) → All (ServesIf (Open 4)) (store32_map dev inter val)
  store32_map-ServesIf val =
      (λ off h al. (_, refl))
      & (λ off h al. (_, refl))
      & (λ off h al. (_, refl))
      & (λ off h al. put_ram-succeeds _ (store_word inter.ram (low_bits off 21) val (omega arith)))
      & (λ off h al. scratch_store32-succeeds off val (omega arith))
      & (λ off h al. (_, refl))
      & (λ off h al. dma_reg_write-succeeds off val)
      & (λ off h al. (_, refl))
      & (λ off h al. (_, refl))
      & (λ off h al. (_, refl))
      & (λ off h al. (_, refl))
      & (λ off h al. put_gpu-succeeds _ (gpu_reg_write-succeeds off val (λ e. al.1 (omega arith))))
      & (λ off h al. (_, refl))
      & tt

  pub store16_map-ServesIf : (val : ℕ) → All (ServesIf (Open 2)) (store16_map dev inter val)
  store16_map-ServesIf val =
      (λ off h al. (_, refl))
      & (λ off h al. put_ram-succeeds _ (store_half inter.ram (low_bits off 21) val (omega arith)))
      & (λ off h al. scratch_store16-succeeds off val (omega arith))
      & (λ off h al. (_, refl))
      & (λ off h al. (_, refl))
      & (λ off h al. (_, refl))
      & (λ off h al. (_, refl))
      & (λ off h al. (_, refl))
      & (λ off h al. dma_reg_write16-succeeds off val)
      & (λ off h al. (_, refl))
      & (λ off h al. (_, refl))
      & (λ off h al.
          put_gpu-succeeds _ (gpu_reg_write16-succeeds off val (λ e. al.1 (omega arith))))
      & (λ off h al. (_, refl))
      & tt

  pub store8_map-ServesIf : (val : ℕ) → All (ServesIf (Open 1)) (store8_map dev inter val)
  store8_map-ServesIf val =
      (λ off h al. (_, refl))
      & (λ off h al. (_, refl))
      & (λ off h al. put_ram-succeeds _ (store_byte inter.ram (low_bits off 21) val (omega arith)))
      & (λ off h al. scratch_store-succeeds inter off val h)
      & (λ off h al. (_, refl))
      & (λ off h al. (_, refl))
      & (λ off h al. (_, refl))
      & (λ off h al. (_, refl))
      & (λ off h al. (_, refl))
      & (λ off h al. put_gpu-succeeds _ (gpu_reg_write8-succeeds off val (λ e. al.1 (omega arith))))
      & (λ off h al. (_, refl))
      & (λ off h al. (_, refl))
      & (λ off h al. (_, refl))
      & (λ off h al. dma_reg_write8-succeeds off val)
      & tt
