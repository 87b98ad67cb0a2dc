-- ===== src/Interconnect/Store.antt =====
-- interconnect.c: the stores of the bus.
use psx_emulator_em_c.Base.{
  ℕ, ◌+◌, ◌%◌, Option, none, some, List, [], ◌∷◌, ◌==◌, if◌then◌else◌, u8, u16, ◌>>◌, low_bits,
}
use psx_emulator_em_c.Irq.{Irq, irq_store32, irq_store16}
use psx_emulator_em_c.Scheduler.{Scheduler}
use psx_emulator_em_c.Timer.State.{Timers}
use psx_emulator_em_c.Timer.Registers.{timers_store32, timers_store16}
use psx_emulator_em_c.Ram.{Ram, ram_store32, ram_store16, ram_store8}
use psx_emulator_em_c.Interconnect.{Interconnect, Devices}
use psx_emulator_em_c.Interconnect.Map.{
  Range, map_ram, map_scratchpad, map_mem_control, map_ram_size, map_cache_ctrl, map_spu,
  map_expansion2, map_irq_control, map_timers, map_dma, map_gpu, map_mdec, map_cdrom, map_sio,
  mask_region, route,
}
use psx_emulator_em_c.Interconnect.Registers.{
  half_shift, byte_shift, merge16, merge8, irq_store8, timers_store8, scratch_store32,
  scratch_store16, scratch_store8, mem_control_store32, mem_control_store16, mem_control_store8,
  cdrom_store16, cdrom_store32, gpu_reg_write, gpu_reg_write16, gpu_reg_write8, mdec_reg_write16,
  mdec_reg_write8, spu_store8, spu_store32,
}
use psx_emulator_em_c.Interconnect.Control.{dma_reg_write, dma_reg_write16, dma_reg_write8}

module _ {D : Type 0} (dev : Devices D) (inter : Interconnect D) where
  open dev use {spu_store, cdrom_store8, sio_store8, sio_store16, mdec_store32}

  -- The state after a store. `none` is `exit(1)`, or an access outside of an array.
  abbrev pub Stored : Type 0
  Stored = Option (Interconnect D)

  abbrev pub put_device : D → Stored
  put_device d = some (record inter { devices = d })

  -- `none` is `exit(1)` in `gpu_gp1`.
  abbrev pub put_gpu : Option D → Stored
  put_gpu none = none
  put_gpu (some d) = put_device d

  abbrev pub put_sio : D × Irq → Stored
  put_sio r = some (record inter { devices = r.0; irq = r.1 })

  abbrev pub put_cdrom : D × Irq × Scheduler → Stored
  put_cdrom r = some (record inter { devices = r.0; irq = r.1; scheduler = r.2 })

  abbrev pub put_timers : Timers × Scheduler → Stored
  put_timers r = some (record inter { timers = r.0; scheduler = r.1 })

  abbrev pub put_ram : Option Ram → Stored
  put_ram none = none
  put_ram (some ram) = some (record inter { ram = ram })

  abbrev sio_store_word : ℕ → ℕ → D × Irq
  sio_store_word off val =
      let (d, irq) = sio_store16 inter.devices off (u16 val) inter.irq in
      sio_store16 d (off + 2) (u16 (val >> 16)) irq

  -- The messages about unusual bases of the expansion regions are left out.
  abbrev pub store32_map : ℕ → List (Range × (ℕ → Stored))
  store32_map val =
      (map_mem_control, λ off. some (mem_control_store32 inter off val))
      ∷ (map_ram_size, λ off. some inter)
      ∷ (map_cache_ctrl, λ off. some (record inter { cache_control = val }))
      ∷ (map_ram, λ off. put_ram (ram_store32 inter.ram (low_bits off 21) val))
      ∷ (map_scratchpad, λ off. scratch_store32 inter off val)
      ∷ (map_irq_control, λ off. some (record inter { irq = irq_store32 inter.irq off val }))
      ∷ (map_dma, λ off. dma_reg_write dev inter off val)
      ∷ (map_mdec, λ off. put_device (mdec_store32 inter.devices off val))
      ∷ (map_spu, λ off. put_device (spu_store32 dev inter.devices (0x1f80_1c00 + off) off val))
      ∷ (
        map_cdrom,
        λ off. put_cdrom (cdrom_store32 dev inter.devices off val inter.irq inter.scheduler),
      )
      ∷ (map_sio, λ off. put_sio (sio_store_word off val))
      ∷ (map_gpu, λ off. put_gpu (gpu_reg_write dev inter.devices off val))
      ∷ (map_timers, λ off. put_timers (timers_store32 inter.timers off val inter.scheduler))
      ∷ []

  unfoldable pub interconnect_store32 : ℕ → ℕ → Stored
  interconnect_store32 addr val =
      if addr % 4 == 0 then route (store32_map val) (mask_region addr) (some inter) else none

  abbrev pub store16_map : ℕ → List (Range × (ℕ → Stored))
  store16_map val =
      (map_mem_control, λ off. some (mem_control_store16 inter off val))
      ∷ (map_ram, λ off. put_ram (ram_store16 inter.ram (low_bits off 21) val))
      ∷ (map_scratchpad, λ off. scratch_store16 inter off val)
      ∷ (map_spu, λ off. put_device (spu_store inter.devices (0x1f80_1c00 + off) off val))
      ∷ (map_ram_size, λ off. some inter)
      ∷ (
        map_cache_ctrl,
        λ off.
            some
              (record inter { cache_control = merge16 inter.cache_control val (half_shift off) }),
      )
      ∷ (map_timers, λ off. put_timers (timers_store16 inter.timers off val inter.scheduler))
      ∷ (map_irq_control, λ off. some (record inter { irq = irq_store16 inter.irq off val }))
      ∷ (map_dma, λ off. dma_reg_write16 dev inter off val)
      ∷ (map_sio, λ off. put_sio (sio_store16 inter.devices off val inter.irq))
      ∷ (
        map_cdrom,
        λ off. put_cdrom (cdrom_store16 dev inter.devices off val inter.irq inter.scheduler),
      )
      ∷ (map_gpu, λ off. put_gpu (gpu_reg_write16 dev inter.devices off val))
      ∷ (map_mdec, λ off. put_device (mdec_reg_write16 dev inter.devices off val))
      ∷ []

  -- The parameter is a `uint16_t`.
  unfoldable pub interconnect_store16 : ℕ → ℕ → Stored
  interconnect_store16 addr val =
      if addr % 2 == 0 then route (store16_map (u16 val)) (mask_region addr) (some inter) else none

  abbrev pub store8_map : ℕ → List (Range × (ℕ → Stored))
  store8_map val =
      (map_mem_control, λ off. some (mem_control_store8 inter off val))
      ∷ (map_expansion2, λ off. some inter)
      ∷ (map_ram, λ off. put_ram (ram_store8 inter.ram (low_bits off 21) val))
      ∷ (map_scratchpad, λ off. scratch_store8 inter off val)
      ∷ (map_spu, λ off. put_device (spu_store8 dev inter.devices (0x1f80_1c00 + off) off val))
      ∷ (map_cdrom, λ off. put_cdrom (cdrom_store8 inter.devices off val inter.irq inter.scheduler))
      ∷ (map_sio, λ off. put_sio (sio_store8 inter.devices off val inter.irq))
      ∷ (map_irq_control, λ off. some (record inter { irq = irq_store8 inter.irq off val }))
      ∷ (map_timers, λ off. put_timers (timers_store8 inter.timers off val inter.scheduler))
      ∷ (map_gpu, λ off. put_gpu (gpu_reg_write8 dev inter.devices off val))
      ∷ (map_mdec, λ off. put_device (mdec_reg_write8 dev inter.devices off val))
      ∷ (map_ram_size, λ off. some inter)
      ∷ (
        map_cache_ctrl,
        λ off.
            some (record inter { cache_control = merge8 inter.cache_control val (byte_shift off) }),
      )
      ∷ (map_dma, λ off. dma_reg_write8 dev inter off val)
      ∷ []

  -- The parameter is a `uint8_t`.
  unfoldable pub interconnect_store8 : ℕ → ℕ → Stored
  interconnect_store8 addr val = route (store8_map (u8 val)) (mask_region addr) (some inter)
