-- ===== src/Interconnect/Control.antt =====
-- interconnect.c: the registers of the DMA controller on the bus.
use psx_emulator_em_c.Base.{
  ℕ, ◌+◌, Option, none, some, leb, ◌==◌, if◌then◌else◌, u8, u16, ◌>>◌, low_bits, clear_low,
}
use psx_emulator_em_c.Channel.{
  Channel, channel_control, channel_set_control, channel_set_base, channel_block_control,
  channel_set_block_control, channel_active,
}
use psx_emulator_em_c.Dma.{
  Dma, Port, port_from_index, dma_channel, dma_set_control, dma_interrupt, dma_set_interrupt,
}
use psx_emulator_em_c.Ram.{◌>>=◌}
use psx_emulator_em_c.Interconnect.{Interconnect, Devices}
use psx_emulator_em_c.Interconnect.Map.{bus_unmapped_load}
use psx_emulator_em_c.Interconnect.Registers.{half_shift, byte_shift, merge8, merge16}
use psx_emulator_em_c.Interconnect.Transfer.{put_channel, dma_update_irq, do_dma}

-- `(offset & 0x70) >> 4` and `offset & 0x0F`.
abbrev pub major : ℕ → ℕ
major offset = low_bits (offset >> 4) 3

abbrev pub minor : ℕ → ℕ
minor offset = low_bits offset 4

abbrev pub unmapped_register : ℕ → ℕ
unmapped_register offset = bus_unmapped_load (0x1f80_1080 + offset) 32

abbrev pub read_channel : Channel → ℕ → ℕ
read_channel ch offset =
    if minor offset == 0
    then ch.base
    else if minor offset == 4
    then channel_block_control ch
    else if minor offset == 8
    then channel_control ch
    else unmapped_register offset

unfoldable pub dma_reg_read : Dma → ℕ → Option ℕ
dma_reg_read dma offset =
    if leb (major offset) 6
    then (do
      port ← port_from_index (major offset)
      some (read_channel (dma_channel dma port) offset))
    else if minor offset == 0
    then some dma.control
    else if minor offset == 4
    then some (dma_interrupt dma)
    else some (unmapped_register offset)

unfoldable pub dma_reg_read16 : Dma → ℕ → Option ℕ
dma_reg_read16 dma offset = do
  word ← dma_reg_read dma (clear_low offset 2)
  some (u16 (word >> half_shift offset))

unfoldable pub dma_reg_read8 : Dma → ℕ → Option ℕ
dma_reg_read8 dma offset = do
  word ← dma_reg_read dma (clear_low offset 2)
  some (u8 (word >> byte_shift offset))

-- The `switch` on a channel's registers. `none` is the `default` label, which changes nothing.
abbrev pub write_channel : Channel → ℕ → ℕ → Option Channel
write_channel ch offset val =
    if minor offset == 0
    then some (channel_set_base ch val)
    else if minor offset == 4
    then some (channel_set_block_control ch val)
    else if minor offset == 8
    then some (channel_set_control ch val)
    else none

module _ {D : Type 0} (dev : Devices D) where
  -- A channel that is active after the write starts its transfer.
  abbrev pub start_channel : Interconnect D → Port → Channel → Option (Interconnect D)
  start_channel inter port ch =
      let inter = record inter { dma = put_channel inter.dma port ch } in
      if channel_active ch then do_dma dev inter port else some inter

  unfoldable pub dma_reg_write : Interconnect D → ℕ → ℕ → Option (Interconnect D)
  dma_reg_write inter offset val =
      if leb (major offset) 6
      then (do
        port ← port_from_index (major offset)
        elim (write_channel (dma_channel inter.dma port) offset val) [
          | none ↦ some inter
          | some ch ↦ start_channel inter port ch
        ])
      else if minor offset == 0
      then some (record inter { dma = dma_set_control inter.dma val })
      else if minor offset == 4
      then some (record inter { dma = dma_update_irq (dma_set_interrupt inter.dma val) })
      else some inter

  unfoldable pub dma_reg_write16 : Interconnect D → ℕ → ℕ → Option (Interconnect D)
  dma_reg_write16 inter offset val = do
    word ← dma_reg_read inter.dma (clear_low offset 2)
    dma_reg_write inter (clear_low offset 2) (merge16 word val (half_shift offset))

  unfoldable pub dma_reg_write8 : Interconnect D → ℕ → ℕ → Option (Interconnect D)
  dma_reg_write8 inter offset val = do
    word ← dma_reg_read inter.dma (clear_low offset 2)
    dma_reg_write inter (clear_low offset 2) (merge8 word val (byte_shift offset))
