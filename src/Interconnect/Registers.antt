-- ===== src/Interconnect/Registers.antt =====
-- interconnect.c: the scratchpad, the memory control registers, and the accesses of a part of a
-- register that is wider.
use psx_emulator_em_c.Base.{
  ℕ, ◌+◌, ◌*◌, Option, none, some, ltb, ◌==◌, if◌then◌else◌, get_or, set, u8, u16, u32, ◌<<◌, ◌>>◌,
  low_bits, clear_low, bit, not32, bit_and, bit_or,
}
use psx_emulator_em_c.Ram.{◌>>=◌}
use psx_emulator_em_c.Irq.{Irq, irq_load32, irq_store32}
use psx_emulator_em_c.Scheduler.{Scheduler}
use psx_emulator_em_c.Timer.State.{Timers}
use psx_emulator_em_c.Timer.Registers.{timers_load16, timers_store16}
use psx_emulator_em_c.Bios.{byte_of, word_of, half_of}
use psx_emulator_em_c.Interconnect.{Interconnect, Devices}
use psx_emulator_em_c.Interconnect.Map.{bus_unmapped_load}

-- `(offset & 2u) * 8u`, `(offset & 3u) * 8u` and `(offset & 1u) * 8u`.
abbrev pub half_shift : ℕ → ℕ
half_shift offset = bit offset 1 * 16

abbrev pub byte_shift : ℕ → ℕ
byte_shift offset = low_bits offset 2 * 8

abbrev pub low_byte_shift : ℕ → ℕ
low_byte_shift offset = low_bits offset 1 * 8

-- `(word & ~(0xFFFFu << shift)) | ((uint32_t)val << shift)`, and the same for a byte.
unfoldable pub merge16 : ℕ → ℕ → ℕ → ℕ
merge16 word val shift = bit_or (bit_and word (not32 (0xffff << shift))) (val << shift)

unfoldable pub merge8 : ℕ → ℕ → ℕ → ℕ
merge8 word val shift = bit_or (bit_and word (not32 (0xff << shift))) (val << shift)

unfoldable pub irq_load8 : Irq → ℕ → ℕ
irq_load8 irq offset = u8 (irq_load32 irq (clear_low offset 2) >> byte_shift offset)

unfoldable pub irq_store8 : Irq → ℕ → ℕ → Irq
irq_store8 irq offset val =
    let aligned = clear_low offset 2 in
    irq_store32 irq aligned (merge8 (irq_load32 irq aligned) val (byte_shift offset))

unfoldable pub timers_load8 : Timers → ℕ → ℕ × Timers
timers_load8 timers offset =
    let (half, timers) = timers_load16 timers (clear_low offset 1) in
    (u8 (half >> low_byte_shift offset), timers)

unfoldable pub timers_store8 : Timers → ℕ → ℕ → Scheduler → Timers × Scheduler
timers_store8 timers offset val sched =
    let aligned = clear_low offset 1 in
    let (half, timers) = timers_load16 timers aligned in
    timers_store16 timers aligned (u16 (merge8 half val (low_byte_shift offset))) sched

abbrev pub scratch_size : ℕ
scratch_size = 1024

module _ {D : Type 0} where
  unfoldable pub scratch_load32 : Interconnect D → ℕ → Option ℕ
  scratch_load32 inter offset = word_of scratch_size inter.scratch_at offset

  unfoldable pub scratch_load16 : Interconnect D → ℕ → Option ℕ
  scratch_load16 inter offset = half_of scratch_size inter.scratch_at offset

  unfoldable pub scratch_load8 : Interconnect D → ℕ → Option ℕ
  scratch_load8 inter offset = byte_of scratch_size inter.scratch_at offset

  unfoldable pub scratch_store8 : Interconnect D → ℕ → ℕ → Option (Interconnect D)
  scratch_store8 inter offset val =
      if ltb offset scratch_size
      then some
          (record inter { scratch_at = λ j. if offset == j then u8 val else inter.scratch_at j })
      else none

  unfoldable pub scratch_store16 : Interconnect D → ℕ → ℕ → Option (Interconnect D)
  scratch_store16 inter offset val = do
    inter ← scratch_store8 inter offset val
    scratch_store8 inter (offset + 1) (val >> 8)

  unfoldable pub scratch_store32 : Interconnect D → ℕ → ℕ → Option (Interconnect D)
  scratch_store32 inter offset val = do
    inter ← scratch_store8 inter offset val
    inter ← scratch_store8 inter (offset + 1) (val >> 8)
    inter ← scratch_store8 inter (offset + 2) (val >> 16)
    scratch_store8 inter (offset + 3) (val >> 24)

  -- An index past the ninth register reads 0 and is not written.
  unfoldable pub mem_control_load32 : Interconnect D → ℕ → ℕ
  mem_control_load32 inter offset =
      let idx = offset >> 2 in if ltb idx 9 then get_or inter.mem_control idx 0 else 0

  unfoldable pub mem_control_load16 : Interconnect D → ℕ → ℕ
  mem_control_load16 inter offset =
      u16 (mem_control_load32 inter (clear_low offset 2) >> half_shift offset)

  unfoldable pub mem_control_load8 : Interconnect D → ℕ → ℕ
  mem_control_load8 inter offset =
      u8 (mem_control_load32 inter (clear_low offset 2) >> byte_shift offset)

  unfoldable pub mem_control_store32 : Interconnect D → ℕ → ℕ → Interconnect D
  mem_control_store32 inter offset val =
      let idx = offset >> 2 in
      if ltb idx 9 then record inter { mem_control = set inter.mem_control idx val } else inter

  unfoldable pub mem_control_store16 : Interconnect D → ℕ → ℕ → Interconnect D
  mem_control_store16 inter offset val =
      let aligned = clear_low offset 2 in
      mem_control_store32 inter aligned
        (merge16 (mem_control_load32 inter aligned) val (half_shift offset))

  unfoldable pub mem_control_store8 : Interconnect D → ℕ → ℕ → Interconnect D
  mem_control_store8 inter offset val =
      let aligned = clear_low offset 2 in
      mem_control_store32 inter aligned
        (merge8 (mem_control_load32 inter aligned) val (byte_shift offset))

-- The devices. C leaves the order of the calls of `cdrom_load8` in one expression open; here they
-- are made from the left.
module _ {D : Type 0} (dev : Devices D) where
  open dev use {
    gpu_read, gpu_status, gpu_gp0, gpu_gp1, spu_load, spu_store, cdrom_load8, cdrom_store8,
    mdec_load32, mdec_store32,
  }

  unfoldable pub cdrom_load16 : D → ℕ → ℕ × D
  cdrom_load16 d offset =
      let (b0, d) = cdrom_load8 d offset in
      let (b1, d) = cdrom_load8 d (offset + 1) in (b0 + b1 << 8, d)

  unfoldable pub cdrom_load32 : D → ℕ → ℕ × D
  cdrom_load32 d offset =
      let (b0, d) = cdrom_load8 d offset in
      let (b1, d) = cdrom_load8 d (offset + 1) in
      let (b2, d) = cdrom_load8 d (offset + 2) in
      let (b3, d) = cdrom_load8 d (offset + 3) in (b0 + b1 << 8 + b2 << 16 + b3 << 24, d)

  unfoldable pub cdrom_store16 : D → ℕ → ℕ → Irq → Scheduler → D × Irq × Scheduler
  cdrom_store16 d offset val irq sched =
      let (d, irq, sched) = cdrom_store8 d offset (u8 val) irq sched in
      cdrom_store8 d (offset + 1) (u8 (val >> 8)) irq sched

  unfoldable pub cdrom_store32 : D → ℕ → ℕ → Irq → Scheduler → D × Irq × Scheduler
  cdrom_store32 d offset val irq sched =
      let (d, irq, sched) = cdrom_store8 d offset (u8 val) irq sched in
      let (d, irq, sched) = cdrom_store8 d (offset + 1) (u8 (val >> 8)) irq sched in
      let (d, irq, sched) = cdrom_store8 d (offset + 2) (u8 (val >> 16)) irq sched in
      cdrom_store8 d (offset + 3) (u8 (val >> 24)) irq sched

  unfoldable pub gpu_reg_read : D → ℕ → ℕ × D
  gpu_reg_read d offset =
      if offset == 0
      then gpu_read d
      else if offset == 4
      then (gpu_status d, d)
      else (bus_unmapped_load (0x1f80_1810 + offset) 32, d)

  unfoldable pub gpu_reg_write : D → ℕ → ℕ → Option D
  gpu_reg_write d offset val =
      if offset == 0 then some (gpu_gp0 d val) else if offset == 4 then gpu_gp1 d val else some d

  unfoldable pub gpu_reg_read16 : D → ℕ → ℕ × D
  gpu_reg_read16 d offset =
      let (word, d) = gpu_reg_read d (clear_low offset 2) in (u16 (word >> half_shift offset), d)

  unfoldable pub gpu_reg_read8 : D → ℕ → ℕ × D
  gpu_reg_read8 d offset =
      let (word, d) = gpu_reg_read d (clear_low offset 2) in (u8 (word >> byte_shift offset), d)

  unfoldable pub gpu_reg_write16 : D → ℕ → ℕ → Option D
  gpu_reg_write16 d offset val =
      gpu_reg_write d (clear_low offset 2) (u32 (val << half_shift offset))

  unfoldable pub gpu_reg_write8 : D → ℕ → ℕ → Option D
  gpu_reg_write8 d offset val =
      gpu_reg_write d (clear_low offset 2) (u32 (val << byte_shift offset))

  unfoldable pub mdec_reg_read16 : D → ℕ → ℕ × D
  mdec_reg_read16 d offset =
      let (word, d) = mdec_load32 d (clear_low offset 2) in (u16 (word >> half_shift offset), d)

  unfoldable pub mdec_reg_read8 : D → ℕ → ℕ × D
  mdec_reg_read8 d offset =
      let (word, d) = mdec_load32 d (clear_low offset 2) in (u8 (word >> byte_shift offset), d)

  unfoldable pub mdec_reg_write16 : D → ℕ → ℕ → D
  mdec_reg_write16 d offset val =
      mdec_store32 d (clear_low offset 2) (u32 (val << half_shift offset))

  unfoldable pub mdec_reg_write8 : D → ℕ → ℕ → D
  mdec_reg_write8 d offset val =
      mdec_store32 d (clear_low offset 2) (u32 (val << byte_shift offset))

  unfoldable pub spu_load8 : D → ℕ → ℕ → ℕ
  spu_load8 d abs offset =
      u8 (spu_load d (clear_low abs 1) (clear_low offset 1) >> low_byte_shift offset)

  unfoldable pub spu_load32 : D → ℕ → ℕ → ℕ
  spu_load32 d abs offset =
      bit_or (spu_load d abs offset) (u32 (spu_load d (abs + 2) (offset + 2) << 16))

  unfoldable pub spu_store8 : D → ℕ → ℕ → ℕ → D
  spu_store8 d abs offset val =
      let aligned_abs = clear_low abs 1 in
      let aligned_off = clear_low offset 1 in
      let half = spu_load d aligned_abs aligned_off in
      spu_store d aligned_abs aligned_off (u16 (merge8 half val (low_byte_shift offset)))

  unfoldable pub spu_store32 : D → ℕ → ℕ → ℕ → D
  spu_store32 d abs offset val =
      spu_store (spu_store d abs offset (u16 val)) (abs + 2) (offset + 2) (u16 (val >> 16))
