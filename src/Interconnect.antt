-- ===== src/Interconnect.antt =====
-- interconnect.h: the state of the bus, and what it asks of the devices on it.
pub mod Map
pub mod Registers
pub mod Transfer
pub mod Control
pub mod Load
pub mod Store
pub mod Visited
pub mod Termination
pub mod Regions
pub mod Serving
pub mod LoadServing
pub mod StoreServing
pub mod Totality
pub mod MainMemory
pub mod InterruptByte
pub mod SerialPort
use psx_emulator_em_c.Base.{ℕ, List, Option, replicate, set}
use psx_emulator_em_c.Irq.{Irq, irq_init}
use psx_emulator_em_c.Scheduler.{Scheduler, scheduler_init}
use psx_emulator_em_c.Timer.State.{Timers, timers_init}
use psx_emulator_em_c.Dma.{Dma, dma_init}
use psx_emulator_em_c.Ram.{Ram, ram_init}
use psx_emulator_em_c.Bios.{Bios}

-- What the bus uses of gpu.c, spu.c, cdrom.c, sio.c and mdec.c, whose states together are `D`.
-- A load may change the state: a read pops a queue, clears a flag, and so on. `gpu_gp1` is `none` where
-- it ends the program, which gpu.c does after too many calls in a row if the environment sets a limit.
pub record Devices (D : Type 0) : Type 0 where
  pub gpu_read : D → ℕ × D
  pub gpu_status : D → ℕ
  pub gpu_gp0 : D → ℕ → D
  pub gpu_gp1 : D → ℕ → Option D
  pub gpu_add_busy_cycles : D → ℕ → D
  pub spu_load : D → ℕ → ℕ → ℕ
  pub spu_store : D → ℕ → ℕ → ℕ → D
  pub spu_dma_write : D → ℕ → D
  pub spu_dma_read : D → ℕ × D
  pub cdrom_load8 : D → ℕ → ℕ × D
  pub cdrom_store8 : D → ℕ → ℕ → Irq → Scheduler → D × Irq × Scheduler
  pub cdrom_dma_read : D → ℕ × D
  pub sio_load8 : D → ℕ → ℕ × D
  pub sio_load16 : D → ℕ → ℕ × D
  pub sio_store8 : D → ℕ → ℕ → Irq → D × Irq
  pub sio_store16 : D → ℕ → ℕ → Irq → D × Irq
  pub mdec_load32 : D → ℕ → ℕ × D
  pub mdec_store32 : D → ℕ → ℕ → D
  pub mdec_dma_write : D → ℕ → D
  pub mdec_dma_read : D → ℕ × D

-- `Interconnect`. `scratch_at` is `scratchpad[i]` for every index below 1024.
pub record Interconnect (D : Type 0) : Type 0 where
  pub bios : Bios
  pub ram : Ram
  pub scratch_at : ℕ → ℕ
  pub mem_control : List ℕ
  pub cache_control : ℕ
  pub dma : Dma
  pub irq : Irq
  pub scheduler : Scheduler
  pub timers : Timers
  pub devices : D

-- `interconnect_init`, over a boot ROM that was read and devices that are already set up.
unfoldable pub interconnect_init : {D : Type 0} → Bios → D → Interconnect D
interconnect_init bios devices = record {
  bios = bios;
  ram = ram_init;
  scratch_at = λ i. 0;
  mem_control = set (set (replicate 9 0) 0 0x1f00_0000) 1 0x1f80_2000;
  cache_control = 0;
  dma = dma_init;
  irq = irq_init;
  scheduler = scheduler_init;
  timers = timers_init;
  devices = devices;
}
