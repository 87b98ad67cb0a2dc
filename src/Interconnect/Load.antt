-- ===== src/Interconnect/Load.antt =====
-- interconnect.c: the loads of the bus.
use psx_emulator_em_c.Base.{
  ℕ, ◌+◌, ◌%◌, Option, none, some, List, [], ◌∷◌, ◌==◌, if◌then◌else◌, u8, u16, u32, ◌<<◌, ◌>>◌,
  low_bits, bit_or,
}
use psx_emulator_em_c.Irq.{irq_load32, irq_load16}
use psx_emulator_em_c.Timer.State.{Timers}
use psx_emulator_em_c.Timer.Registers.{timers_load32, timers_load16}
use psx_emulator_em_c.Ram.{ram_load32, ram_load16, ram_load8}
use psx_emulator_em_c.Bios.{bios_load32, bios_load16, bios_load8}
use psx_emulator_em_c.Interconnect.{Interconnect, Devices}
use psx_emulator_em_c.Interconnect.Map.{
  Range, map_ram, map_bios, map_scratchpad, map_mem_control, map_ram_size, map_cache_ctrl, map_spu,
  map_expansion1, map_expansion2, map_expansion3, map_irq_control, map_timers, map_dma, map_gpu,
  map_mdec, map_cdrom, map_sio, mask_region, route, bus_unmapped_load,
}
use psx_emulator_em_c.Interconnect.Registers.{
  half_shift, byte_shift, irq_load8, timers_load8, scratch_load32, scratch_load16, scratch_load8,
  mem_control_load32, mem_control_load16, mem_control_load8, cdrom_load16, cdrom_load32,
  gpu_reg_read, gpu_reg_read16, gpu_reg_read8, mdec_reg_read16, mdec_reg_read8, spu_load8,
  spu_load32,
}
use psx_emulator_em_c.Interconnect.Control.{dma_reg_read, dma_reg_read16, dma_reg_read8}

module _ {D : Type 0} (dev : Devices D) (inter : Interconnect D) where
  open dev use {spu_load, cdrom_load8, sio_load8, sio_load16, mdec_load32}

  -- What a load gives: the value and the state after it. `none` is `exit(1)`, or an access outside
  -- of an array.
  abbrev pub Loaded : Type 0
  Loaded = Option (ℕ × Interconnect D)

  -- A load that changes nothing, of the devices, of the timers.
  abbrev pub pure : Option ℕ → Loaded
  pure none = none
  pure (some val) = some (val, inter)

  abbrev pub by_device : ℕ × D → Loaded
  by_device r = some (r.0, record inter { devices = r.1 })

  abbrev pub by_timers : ℕ × Timers → Loaded
  by_timers r = some (r.0, record inter { timers = r.1 })

  abbrev sio_word : ℕ → ℕ × D
  sio_word off =
      let (low, d) = sio_load16 inter.devices off in
      let (high, d) = sio_load16 d (off + 2) in (bit_or low (u32 (high << 16)), d)

  -- Main memory repeats every 2 MiB in its range of 8.
  abbrev pub load32_map : List (Range × (ℕ → Loaded))
  load32_map =
      (map_mem_control, λ off. pure (some (mem_control_load32 inter off)))
      ∷ (map_bios, λ off. pure (bios_load32 inter.bios off))
      ∷ (map_spu, λ off. pure (some (spu_load32 dev inter.devices (0x1f80_1c00 + off) off)))
      ∷ (map_scratchpad, λ off. pure (scratch_load32 inter off))
      ∷ (map_ram, λ off. pure (ram_load32 inter.ram (low_bits off 21)))
      ∷ (map_irq_control, λ off. pure (some (irq_load32 inter.irq off)))
      ∷ (map_ram_size, λ off. pure (some 0))
      ∷ (map_cache_ctrl, λ off. pure (some inter.cache_control))
      ∷ (map_dma, λ off. pure (dma_reg_read inter.dma off))
      ∷ (map_cdrom, λ off. by_device (cdrom_load32 dev inter.devices off))
      ∷ (map_sio, λ off. by_device (sio_word off))
      ∷ (map_mdec, λ off. by_device (mdec_load32 inter.devices off))
      ∷ (map_gpu, λ off. by_device (gpu_reg_read dev inter.devices off))
      ∷ (map_timers, λ off. by_timers (timers_load32 inter.timers off))
      ∷ (map_expansion1, λ off. pure (some 0xffff_ffff))
      ∷ (map_expansion2, λ off. pure (some 0xffff_ffff))
      ∷ (map_expansion3, λ off. pure (some 0xffff_ffff))
      ∷ []

  unfoldable pub interconnect_load32 : ℕ → Loaded
  interconnect_load32 addr =
      if addr % 4 == 0
      then route load32_map (mask_region addr) (pure (some (bus_unmapped_load addr 32)))
      else none

  abbrev pub load16_map : List (Range × (ℕ → Loaded))
  load16_map =
      (map_mem_control, λ off. pure (some (mem_control_load16 inter off)))
      ∷ (map_spu, λ off. pure (some (spu_load inter.devices (0x1f80_1c00 + off) off)))
      ∷ (map_bios, λ off. pure (bios_load16 inter.bios off))
      ∷ (map_scratchpad, λ off. pure (scratch_load16 inter off))
      ∷ (map_ram, λ off. pure (ram_load16 inter.ram (low_bits off 21)))
      ∷ (map_irq_control, λ off. pure (some (irq_load16 inter.irq off)))
      ∷ (map_ram_size, λ off. pure (some 0))
      ∷ (map_cache_ctrl, λ off. pure (some (u16 (inter.cache_control >> half_shift off))))
      ∷ (map_dma, λ off. pure (dma_reg_read16 inter.dma off))
      ∷ (map_cdrom, λ off. by_device (cdrom_load16 dev inter.devices off))
      ∷ (map_gpu, λ off. by_device (gpu_reg_read16 dev inter.devices off))
      ∷ (map_mdec, λ off. by_device (mdec_reg_read16 dev inter.devices off))
      ∷ (map_timers, λ off. by_timers (timers_load16 inter.timers off))
      ∷ (map_sio, λ off. by_device (sio_load16 inter.devices off))
      ∷ (map_expansion1, λ off. pure (some 0xffff))
      ∷ (map_expansion2, λ off. pure (some 0xffff))
      ∷ (map_expansion3, λ off. pure (some 0xffff))
      ∷ []

  unfoldable pub interconnect_load16 : ℕ → Loaded
  interconnect_load16 addr =
      if addr % 2 == 0
      then route load16_map (mask_region addr) (pure (some (u16 (bus_unmapped_load addr 16))))
      else none

  abbrev pub load8_map : List (Range × (ℕ → Loaded))
  load8_map =
      (map_mem_control, λ off. pure (some (mem_control_load8 inter off)))
      ∷ (map_bios, λ off. pure (bios_load8 inter.bios off))
      ∷ (map_scratchpad, λ off. pure (scratch_load8 inter off))
      ∷ (map_ram, λ off. pure (ram_load8 inter.ram (low_bits off 21)))
      ∷ (map_irq_control, λ off. pure (some (irq_load8 inter.irq off)))
      ∷ (map_spu, λ off. pure (some (spu_load8 dev inter.devices (0x1f80_1c00 + off) off)))
      ∷ (map_timers, λ off. by_timers (timers_load8 inter.timers off))
      ∷ (map_gpu, λ off. by_device (gpu_reg_read8 dev inter.devices off))
      ∷ (map_mdec, λ off. by_device (mdec_reg_read8 dev inter.devices off))
      ∷ (map_cdrom, λ off. by_device (cdrom_load8 inter.devices off))
      ∷ (map_ram_size, λ off. pure (some 0))
      ∷ (map_cache_ctrl, λ off. pure (some (u8 (inter.cache_control >> byte_shift off))))
      ∷ (map_dma, λ off. pure (dma_reg_read8 inter.dma off))
      ∷ (map_sio, λ off. by_device (sio_load8 inter.devices off))
      ∷ (map_expansion1, λ off. pure (some 0xff))
      ∷ (map_expansion2, λ off. pure (some 0xff))
      ∷ (map_expansion3, λ off. pure (some 0xff))
      ∷ []

  unfoldable pub interconnect_load8 : ℕ → Loaded
  interconnect_load8 addr =
      route load8_map (mask_region addr) (pure (some (u8 (bus_unmapped_load addr 8))))
