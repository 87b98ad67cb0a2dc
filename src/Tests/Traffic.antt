-- ===== src/Tests/Traffic.antt =====
-- Runs of the bus, over devices that answer with zeroes and keep what is sent to GP0.
use psx_emulator_em_c.Base.{
  ℕ, suc, ◌+◌, ◌^◌, ◌≡◌, refl, arith, true, false, none, some, List, [], ◌∷◌,
}
use psx_emulator_em_c.Dma.{dma_init, port_gpu}
use psx_emulator_em_c.Interconnect.{Interconnect, Devices, interconnect_init}
use psx_emulator_em_c.Interconnect.Map.{mask_region}
use psx_emulator_em_c.Interconnect.Transfer.{Packet, word_address, list_loop, do_dma, dma_finish}
use psx_emulator_em_c.Interconnect.Control.{dma_reg_write8}
use psx_emulator_em_c.Interconnect.Load.{
  interconnect_load32, interconnect_load16, interconnect_load8,
}
use psx_emulator_em_c.Interconnect.Store.{
  interconnect_store32, interconnect_store16, interconnect_store8,
}
use psx_emulator_em_c.Interconnect.Termination.{do_dma_ends, list_loop_ends}
use psx_emulator_em_c.Interconnect.Regions.{segment_base, segment_mirrors}
use psx_emulator_em_c.Interconnect.Totality.{load_total, store_total}
use psx_emulator_em_c.Interconnect.MainMemory.{load32-store32}
use psx_emulator_em_c.Interconnect.InterruptByte.{dma_reg_write8-interrupt}

abbrev pub quiet : Devices (List ℕ)
quiet = record {
  gpu_read = λ d. (0, d);
  gpu_status = λ d. 0;
  gpu_gp0 = λ d val. val ∷ d;
  gpu_gp1 = λ d val. some d;
  gpu_add_busy_cycles = λ d cycles. d;
  spu_load = λ d abs off. 0;
  spu_store = λ d abs off val. d;
  spu_dma_write = λ d val. d;
  spu_dma_read = λ d. (0, d);
  cdrom_load8 = λ d off. (0, d);
  cdrom_store8 = λ d off val irq sched. (d, irq, sched);
  cdrom_dma_read = λ d. (0, d);
  sio_load8 = λ d off. (0, d);
  sio_load16 = λ d off. (0, d);
  sio_store8 = λ d off val irq. (d, irq);
  sio_store16 = λ d off val irq. (d, irq);
  mdec_load32 = λ d off. (0, d);
  mdec_store32 = λ d off val. d;
  mdec_dma_write = λ d val. d;
  mdec_dma_read = λ d. (0, d);
}

abbrev machine : Interconnect (List ℕ)
machine = interconnect_init (record { data_at = λ i. 0 }) []

do_dma_ends_example :
    (inter' : Interconnect (List ℕ)) × (do_dma quiet machine port_gpu ≡ some inter')
    × (inter'.dma ≡ dma_finish machine.dma port_gpu)
do_dma_ends_example = do_dma_ends quiet machine port_gpu

list_loop_ends_example :
    let start : Packet (List ℕ) = record {
      addr = word_address 0x100;
      words = 0;
      devices = machine.devices;
    } in
    (r : ℕ × Interconnect (List ℕ)) × (list_loop quiet (suc (2 ^ 19)) (λ i. false) machine start
      ≡ some r)
    × (list_loop quiet (2 ^ 20) (λ i. false) machine start ≡ some r)
list_loop_ends_example = list_loop_ends quiet machine 0x100 (2 ^ 20) (omega arith)

segment_mirrors_example :
    (interconnect_load32 quiet machine (segment_base true + 0x1000)
      ≡ interconnect_load32 quiet machine 0x1000)
    × (interconnect_load16 quiet machine (segment_base true + 0x1000)
        ≡ interconnect_load16 quiet machine 0x1000)
    × (interconnect_load8 quiet machine (segment_base true + 0x1000)
        ≡ interconnect_load8 quiet machine 0x1000)
    × (interconnect_store32 quiet machine (segment_base true + 0x1000) 7
        ≡ interconnect_store32 quiet machine 0x1000 7)
    × (interconnect_store16 quiet machine (segment_base true + 0x1000) 7
        ≡ interconnect_store16 quiet machine 0x1000 7)
    × (interconnect_store8 quiet machine (segment_base true + 0x1000) 7
        ≡ interconnect_store8 quiet machine 0x1000 7)
segment_mirrors_example = segment_mirrors quiet machine true 0x1000 7 (omega arith)

load_total_example :
    ((a : ℕ × Interconnect (List ℕ)) × (interconnect_load32 quiet machine 0x1f80_1070 ≡ some a))
    × ((a : ℕ × Interconnect (List ℕ)) × (interconnect_load16 quiet machine 0x1f80_1070 ≡ some a))
    × ((a : ℕ × Interconnect (List ℕ)) × (interconnect_load8 quiet machine 0x1f80_1070 ≡ some a))
load_total_example = load_total quiet machine 0x1f80_1070 (omega arith)

-- An address that is even and no multiple of 4.
store_total_example :
    (interconnect_store32 quiet machine 0x1f80_1072 5 ≡ none)
    × ((a : Interconnect (List ℕ)) × (interconnect_store16 quiet machine 0x1f80_1072 5 ≡ some a))
    × ((a : Interconnect (List ℕ)) × (interconnect_store8 quiet machine 0x1f80_1072 5 ≡ some a))
store_total_example = store_total quiet machine 0x1f80_1072 (omega arith) 5 (λ e val. (_, refl))

-- Stored in KSEG0, loaded in KSEG1 from the next mirror.
load32-store32_example :
    (inter' : Interconnect (List ℕ)) × (interconnect_store32 quiet machine 0x8000_1000 0x1234_5678
      ≡ some inter')
    × (interconnect_load32 quiet inter' 0xa020_1000 ≡ some (0x1234_5678, inter'))
unfolding mask_region
load32-store32_example =
    load32-store32 quiet machine 0x8000_1000 0xa020_1000 0x1234_5678 (omega arith) (omega arith)
      (omega arith) (omega arith) (omega arith) refl (omega arith)

-- The channel of the GPU has finished.
abbrev flagged : Interconnect (List ℕ)
flagged = record machine { dma = record dma_init { channel_irq_flags = 0b100 } }

dma_reg_write8-interrupt_example :
    (inter' : Interconnect (List ℕ)) × (dma_reg_write8 quiet flagged (0x74 + 0) 0x3f ≡ some inter')
    × ((inter'.dma).channel_irq_flags ≡ 0)
unfolding dma_init
dma_reg_write8-interrupt_example =
    dma_reg_write8-interrupt quiet flagged 0 0x3f
      (record { enables_small = omega arith; flags_small = omega arith; dummy_small = omega arith })
      (omega arith) (omega arith)
