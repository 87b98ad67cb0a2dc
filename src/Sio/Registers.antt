-- ===== src/Sio/Registers.antt =====
-- sio.c: the registers of the serial port, and its step.
use psx_emulator_em_c.Base.{
  ℕ, ◌+◌, ◌-◌, ◌*◌, ◌^◌, Bool, true, false, ◌&&◌, ◌||◌, not, ◌==◌, ◌!=◌, ltb, leb, if◌then◌else◌,
  bit_and, bit_or, u8, u16, ◌<<◌, ◌>>◌, low_bits, clear_low, test_bit, not32, get_or, set, List,
}
use psx_emulator_em_c.Irq.{Irq, irq_assert, irq_sio}
use psx_emulator_em_c.Sio.{Sio, reset_transaction, schedule_ack_irq, build_stat, not16}
use psx_emulator_em_c.Sio.Pads.{active_pad, pad_response_byte, pad_response_length}
use psx_emulator_em_c.Sio.Card.{Bytes, memcard_response}

-- `if (sio->rx_pos >= sio->rx_len) sio->rx_pos = sio->rx_len = 0`.
abbrev pub drop_read : Sio → Sio
drop_read sio = if leb sio.rx_len sio.rx_pos then record sio { rx_pos = 0; rx_len = 0 } else sio

-- RX_DATA, the case 0 of `sio_load8`.
unfoldable pub load_rx_data : Sio → Sio × ℕ
load_rx_data sio =
    let available = ltb sio.rx_pos sio.rx_len in
    let v = if available then get_or sio.rx_buf sio.rx_pos 0 else 0xff in
    let sio = if available then record sio { rx_pos = u8 (sio.rx_pos + 1) } else sio in
    let sio = drop_read sio in (record sio { stat = build_stat sio }, v)

unfoldable pub sio_load16 : Sio → ℕ → Sio × ℕ
sio_load16 sio off =
    if off == 0
    then load_rx_data sio
    else if off == 4
    then (let bits = u16 (build_stat sio) in
        let sio = record sio { ack_active = false } in (record sio { stat = build_stat sio }, bits))
    else if off == 6
    then (sio, u16 (sio.stat >> 16))
    else if off == 8
    then (sio, sio.mode)
    else if off == 0xa
    then (sio, sio.ctrl)
    else if off == 0xe
    then (sio, sio.baud)
    else (sio, 0)

unfoldable pub sio_load8 : Sio → ℕ → Sio × ℕ
sio_load8 sio off =
    if off == 0
    then load_rx_data sio
    else (let (sio, half) = sio_load16 sio (clear_low off 1) in
        (sio, u8 (half >> (low_bits off 1 * 8))))

-- The selection by CTRL, when it is no reset.
unfoldable pub select_device : Sio → ℕ → Sio
select_device sio val =
    let sel = record sio { selected = true; slot2 = test_bit val 13 } in
    if test_bit val 1
    then (if sio.selected then sel else record sel {
      tx_count = 0;
      rx_len = 0;
      rx_pos = 0;
      memcard_access = false;
      pad_access = false;
      pad_command = 0;
    })
    else if sio.selected
    then reset_transaction sio
    else sio

-- The bit ACK alone acknowledges and leaves the other bits of the register.
abbrev pub written_ctrl : Sio → ℕ → ℕ
written_ctrl sio val =
    let ack_only = test_bit val 4 && bit_and val (not16 (2 ^ 4)) == 0 in
    if ack_only then u16 (bit_or sio.ctrl (2 ^ 4)) else val

-- The effect of a value of CTRL.
unfoldable pub apply_ctrl : Sio → ℕ → Sio
apply_ctrl sio val =
    let sio = record sio { ctrl = val } in
    let acked = record sio { irq_pending = false; ctrl = bit_and val (not16 (2 ^ 4)) } in
    if test_bit val 6
    then record (reset_transaction sio) { irq_pending = false; irq_cycles_remaining = 0; ctrl = 0 }
    else select_device (if test_bit val 4 then acked else sio) val

unfoldable pub store_ctrl : Sio → ℕ → Sio
store_ctrl sio val =
    let sio = apply_ctrl sio (written_ctrl sio val) in record sio { stat = build_stat sio }

-- The interrupt controller that the source passes to both stores is not used.
unfoldable pub sio_store16 : Sio → ℕ → ℕ → Sio
sio_store16 sio off val =
    if off == 8
    then record sio { mode = val }
    else if off == 0xa
    then store_ctrl sio val
    else if off == 0xe
    then record sio { baud = val }
    else sio

-- The byte that addresses a device, and the one that is the pad's command.
unfoldable pub address_device : Sio → ℕ → Sio
address_device sio val =
    if sio.tx_count == 0
    then record sio {
      memcard_access = val == 0x81 && sio.memcard_present && not sio.slot2;
      pad_access = val == 0x01;
    }
    else if sio.tx_count == 1 && sio.pad_access
    then record sio {
      pad_command = val;
      pad_access =
          val == 0x42
          || val == 0x43
          || (active_pad sio).config_mode
            && (val == 0x44
                || val == 0x45
                || val == 0x46
                || val == 0x47
                || val == 0x4c
                || val == 0x4d);
    }
    else sio

unfoldable pub memcard_ack : Sio → Bool
memcard_ack sio =
    sio.memcard_command == 0x52 && leb sio.memcard_pos 139
    || sio.memcard_command == 0x57 && leb sio.memcard_pos 137
    || leb sio.memcard_pos 5

module _ (write_file : List ℕ → Bytes → Bool) where
  -- The device that is selected and addressed replies; without one, the line stays high.
  unfoldable pub device_response : Sio → ℕ → Sio × ℕ
  device_response sio val =
      if sio.selected && sio.memcard_access
      then memcard_response write_file sio val
      else if sio.selected && sio.pad_access
      then pad_response_byte sio sio.tx_count val
      else (sio, 0xff)

  unfoldable pub respond : Sio → ℕ → Sio
  respond sio val =
      let active_memcard = sio.selected && sio.memcard_access in
      let active_pad = sio.selected && sio.pad_access in
      let (sio, response) = device_response sio val in
      let sio = record sio {
        rx_buf = set sio.rx_buf sio.rx_len response;
        rx_len = u8 (sio.rx_len + 1);
      } in
      if active_memcard && memcard_ack sio
        || active_pad && ltb (sio.tx_count + 1) (pad_response_length sio)
      then schedule_ack_irq sio
      else sio

  -- TX_DATA.
  unfoldable pub store_tx_data : Sio → ℕ → Sio
  store_tx_data sio val =
      let sio = address_device (drop_read sio) val in
      let sio = if ltb sio.rx_len 16 then respond sio val else sio in
      let sio = record sio { tx_count = u8 (sio.tx_count + 1) } in
      record sio { stat = build_stat sio }

  unfoldable pub sio_store8 : Sio → ℕ → ℕ → Sio
  sio_store8 sio off val =
      if off == 0
      then store_tx_data sio val
      else (let shift = low_bits off 1 * 8 in
          let (sio, half) = sio_load16 sio (clear_low off 1) in
          sio_store16 sio (clear_low off 1)
            (u16 (bit_or (bit_and half (not32 (0xff << shift))) (u16 (val << shift)))))

unfoldable pub sio_step : Sio → Irq → ℕ → Sio × Irq
sio_step sio irq cycles =
    let fired = record sio { irq_cycles_remaining = 0; irq_pending = true; ack_active = true } in
    let sio =
      if ltb 0 sio.irq_cycles_remaining
      then (if leb sio.irq_cycles_remaining cycles
          then record fired { stat = build_stat fired }
          else record sio { irq_cycles_remaining = sio.irq_cycles_remaining - cycles })
      else sio in
    (sio, if sio.irq_pending then irq_assert irq irq_sio else irq)

unfoldable pub sio_cycles_until_event : Sio → ℕ
sio_cycles_until_event sio =
    if sio.irq_cycles_remaining != 0 then sio.irq_cycles_remaining else 2 ^ 32 - 1
