-- ===== src/Interconnect/SerialPort.antt =====
-- interconnect.c: the serial port of sio.c on the bus.
use psx_emulator_em_c.Base.{Option, none, ℕ, ◌≡◌, refl, ap, ◌∙◌, some, Bool, List, u8}
use psx_emulator_em_c.Sio.{Sio}
use psx_emulator_em_c.Sio.Card.{Bytes}
use psx_emulator_em_c.Sio.Registers.{address_device, device_response, drop_read}
use psx_emulator_em_c.Sio.Registers
use psx_emulator_em_c.Sio.Fifo.{IsFifo}
use psx_emulator_em_c.Sio.Exchange.{sio_load8-sio_store8}
use psx_emulator_em_c.Interconnect.{Interconnect, Devices}
use psx_emulator_em_c.Interconnect.Map.{route, mask_region}
use psx_emulator_em_c.Interconnect.Load.{interconnect_load8}
use psx_emulator_em_c.Interconnect.Store.{interconnect_store8}

abbrev keep : {D : Type 0} → Sio → Option D → Option (Sio × D)
keep sio none = none
keep sio (some d) = some (sio, d)

module _ (write_file : List ℕ → Bytes → Bool) {D : Type 0} (dev : Devices D) where
  -- The devices of the bus with this serial port. Its stores do not use the interrupt controller.
  unfoldable pub with_sio : Devices (Sio × D)
  with_sio = record {
    gpu_read = λ s. let (v, d) = dev.gpu_read s.1 in (v, (s.0, d));
    gpu_status = λ s. dev.gpu_status s.1;
    gpu_gp0 = λ s val. (s.0, dev.gpu_gp0 s.1 val);
    gpu_gp1 = λ s val. keep s.0 (dev.gpu_gp1 s.1 val);
    gpu_add_busy_cycles = λ s cycles. (s.0, dev.gpu_add_busy_cycles s.1 cycles);
    spu_load = λ s abs off. dev.spu_load s.1 abs off;
    spu_store = λ s abs off val. (s.0, dev.spu_store s.1 abs off val);
    spu_dma_write = λ s val. (s.0, dev.spu_dma_write s.1 val);
    spu_dma_read = λ s. let (v, d) = dev.spu_dma_read s.1 in (v, (s.0, d));
    cdrom_load8 = λ s off. let (v, d) = dev.cdrom_load8 s.1 off in (v, (s.0, d));
    cdrom_store8 = λ s off val irq sched.
        let (d, irq, sched) = dev.cdrom_store8 s.1 off val irq sched in ((s.0, d), irq, sched);
    cdrom_dma_read = λ s. let (v, d) = dev.cdrom_dma_read s.1 in (v, (s.0, d));
    sio_load8 = λ s off. let (sio, v) = Registers.sio_load8 s.0 off in (v, (sio, s.1));
    sio_load16 = λ s off. let (sio, v) = Registers.sio_load16 s.0 off in (v, (sio, s.1));
    sio_store8 = λ s off val irq. ((Registers.sio_store8 write_file s.0 off val, s.1), irq);
    sio_store16 = λ s off val irq. ((Registers.sio_store16 s.0 off val, s.1), irq);
    mdec_load32 = λ s off. let (v, d) = dev.mdec_load32 s.1 off in (v, (s.0, d));
    mdec_store32 = λ s off val. (s.0, dev.mdec_store32 s.1 off val);
    mdec_dma_write = λ s val. (s.0, dev.mdec_dma_write s.1 val);
    mdec_dma_read = λ s. let (v, d) = dev.mdec_dma_read s.1 in (v, (s.0, d));
  }

  -- A byte stored at 0x1F801040 and then loaded there.
  stored : Interconnect (Sio × D) → ℕ → Interconnect (Sio × D)
  stored inter val = record inter {
    devices = (Registers.sio_store8 write_file (inter.devices).0 0 (u8 val), (inter.devices).1);
  }

  store_byte :
      (inter : Interconnect (Sio × D)) (val : ℕ)
      → interconnect_store8 with_sio inter 0x1f80_1040 val ≡ some (stored inter val)
  unfolding interconnect_store8 with_sio stored route mask_region
  store_byte inter val = refl

  load_byte :
      (inter : Interconnect (Sio × D))
      → let (sio, v) = Registers.sio_load8 (inter.devices).0 0 in
        interconnect_load8 with_sio inter 0x1f80_1040
        ≡ some (v, record inter { devices = (sio, (inter.devices).1) })
  unfolding interconnect_load8 with_sio route mask_region
  load_byte inter = refl

  -- A byte stored at the address of the serial port's data register, by a store of a byte on the bus
  -- that has this port, and then loaded there is the reply of the device that the byte reaches, if
  -- nothing was left to read before. Nothing is left to read after, and the other devices, the memories
  -- and the interrupt controller are as they were.
  pub load8-store8 :
      (inter : Interconnect (Sio × D)) (val : ℕ)
      → IsFifo (inter.devices).0
      → ((inter.devices).0).rx_pos ≡ ((inter.devices).0).rx_len
      → let addressed = address_device (drop_read (inter.devices).0) (u8 val) in
        let reply = (device_response write_file addressed (u8 val)).1 in
        (sent : Interconnect (Sio × D)) × (sio : Sio) × (interconnect_store8 with_sio inter
            0x1f80_1040 val
          ≡ some sent)
        × (interconnect_load8 with_sio sent 0x1f80_1040
            ≡ some (reply, record inter { devices = (sio, (inter.devices).1) }))
        × (sio.rx_pos ≡ 0)
        × (sio.rx_len ≡ 0)
  unfolding stored
  load8-store8 inter val v e =
      let sent = stored inter val in
      let r = sio_load8-sio_store8 write_file (inter.devices).0 (u8 val) v e in
      let sio = (Registers.sio_load8 (sent.devices).0 0).0 in
      (
        sent,
        sio,
        store_byte inter val,
        load_byte sent
            ∙ ap (λ (n : ℕ). some (n, record inter { devices = (sio, (inter.devices).1) })) r.0,
        r.1,
        r.2,
      )
