-- ===== src/Tests/Devices.antt =====
-- Runs of the interrupt controller, the DMA controller, main memory and the instruction cache.
use psx_emulator_em_c.Base.{true}
use psx_emulator_em_c.Irq.{Irq}
use psx_emulator_em_c.Dma.{Dma, dma_init}

-- Two lines are raised, and the second of them is unmasked.
abbrev raised : Irq
raised = record { status = 0b11; mask = 0b10 }

-- The channel of the GPU has finished, and its interrupt is enabled.
abbrev finished : Dma
finished = record dma_init {
  irq_en = true;
  channel_irq_en = 0b100;
  channel_irq_flags = 0b100;
  irq_dummy = 0;
}
