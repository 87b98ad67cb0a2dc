-- ===== src/Sio/Exchange.antt =====
-- sio.c: a byte sent and the byte received for it, through the data register.
use psx_emulator_em_c.Base.{
  ℕ, ◌+◌, ◌≡◌, ap, ◌∙◌, arith, length, List, Bool, get_or, set, get_or-set_self, u8, ltb,
}
use psx_emulator_em_c.Sio.{Sio}
use psx_emulator_em_c.Sio.Card.{Bytes}
use psx_emulator_em_c.Sio.Registers.{
  sio_load8, sio_store8, load_rx_data, address_device, device_response, store_tx_data, drop_read,
}
use psx_emulator_em_c.Sio.Fifo.{
  IsFifo, respond_lem, device_response-Leaves, address_device-SameFifo, drop_read-IsFifo,
}

-- Reading the only byte there is leaves the buffer empty.
load_only :
    (sio : Sio)
    → sio.rx_pos ≡ 0
    → sio.rx_len ≡ 1
    → let (after, v) = load_rx_data sio in
      (v ≡ get_or sio.rx_buf 0 0) × (after.rx_pos ≡ 0) × (after.rx_len ≡ 0)
unfolding load_rx_data
load_only sio p l = ground (arith, ap (λ (i : ℕ). get_or sio.rx_buf i 0) p)

module _ (write_file : List ℕ → Bytes → Bool) where
  -- A byte sent to an empty buffer puts the reply at its start.
  store_only :
      (sio : Sio) (val : ℕ)
      → IsFifo sio
      → sio.rx_pos ≡ sio.rx_len
      → let sent = store_tx_data write_file sio val in
        let (after, response) =
          device_response write_file (address_device (drop_read sio) val) val in
        (sent.rx_buf ≡ set after.rx_buf 0 response) × (sent.rx_pos ≡ 0) × (sent.rx_len ≡ 1)
  unfolding store_tx_data
  store_only sio val v e =
      let addressed = address_device (drop_read sio) val in
      let d : ((drop_read sio).rx_pos ≡ 0) × ((drop_read sio).rx_len ≡ 0) = ground arith in
      let a = address_device-SameFifo (drop_read sio) val in
      let s = device_response-Leaves write_file addressed val in
      let r = respond_lem write_file addressed val in
      let (reached, response) = device_response write_file addressed val in
      let len : addressed.rx_len ≡ 0 = a.1 ∙ d.1 in
      rw (ap (λ (n : ℕ). ltb n 16) len) (
        r.0 ∙ ap (λ (n : ℕ). set reached.rx_buf n response) (s.1 ∙ len),
        r.2 ∙ s.2 ∙ a.2 ∙ d.0,
        r.1 ∙ ap (λ (n : ℕ). u8 (n + 1)) (s.1 ∙ len),
      )

  -- Each byte that is sent clocks exactly one byte of the device: when nothing is left to read, the
  -- byte read at offset 0 after a write there is the reply of the device that this byte reaches, and
  -- then nothing is left to read again.
  pub sio_load8-sio_store8 :
      (sio : Sio) (val : ℕ)
      → IsFifo sio
      → sio.rx_pos ≡ sio.rx_len
      → let (after, v) = sio_load8 (sio_store8 write_file sio 0 val) 0 in
        let addressed = address_device (drop_read sio) val in
        (v ≡ (device_response write_file addressed val).1) × (after.rx_pos ≡ 0) × (after.rx_len ≡ 0)
  unfolding sio_load8 sio_store8
  sio_load8-sio_store8 sio val v e =
      let addressed = address_device (drop_read sio) val in
      let sent = store_only sio val v e in
      let a = address_device-SameFifo (drop_read sio) val in
      let s = device_response-Leaves write_file addressed val in
      let (reached, response) = device_response write_file addressed val in
      let read = load_only (store_tx_data write_file sio val) sent.1 sent.2 in
      let size : length reached.rx_buf ≡ 16 = s.0 ∙ a.0 ∙ (drop_read-IsFifo v).rx_buf_length in
      (
        read.0
            ∙ ap (λ (l : List ℕ). get_or l 0 0) sent.0
            ∙ get_or-set_self reached.rx_buf 0 response 0 (omega (arith, size)),
        read.1,
        read.2,
      )
