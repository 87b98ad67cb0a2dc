-- ===== src/Sio/Fifo.antt =====
-- sio.c: the bytes received, one for each byte sent, and the bounds of their buffer.
use psx_emulator_em_c.Base.{
  ℕ, ◌+◌, ◌-◌, ◌≤◌, ◌<◌, ◌≡◌, refl, ap, arith, ltb, leb, length, List, ◌∙◌, Bool, Bool-cases, inl,
  inr, ltb→lt, length-set, if-cases, ◌&&◌, u8, u16, set,
}
use psx_emulator_em_c.Sio.{Sio, reset_transaction, schedule_ack_irq, PadState}
use psx_emulator_em_c.Sio.Pads.{put_pad, pad_response_byte}
use psx_emulator_em_c.Sio.Card.{Bytes, memcard_response, read_response, write_response}
use psx_emulator_em_c.Sio.Registers.{
  load_rx_data, address_device, device_response, respond, store_tx_data, drop_read,
}

-- The positions are within the 16 bytes of the buffer, and the sector's buffer has its 128 bytes.
pub record IsFifo (sio : Sio) : Type 0 where
  pub rx_buf_length : length sio.rx_buf ≡ 16
  pub rx_pos-rx_len : sio.rx_pos ≤ sio.rx_len
  pub rx_len-le : sio.rx_len ≤ 16
  pub write_length : length sio.memcard_write ≡ 128

-- What leaves the buffer and the counts as they are.
abbrev pub SameFifo : Sio → Sio → Type 0
SameFifo sio sio' =
    (length sio'.rx_buf ≡ length sio.rx_buf)
    × (sio'.rx_len ≡ sio.rx_len)
    × (sio'.rx_pos ≡ sio.rx_pos)
    × (length sio'.memcard_write ≡ length sio.memcard_write)

abbrev pub Leaves : Sio → Sio × ℕ → Type 0
Leaves sio r = SameFifo sio r.0

pub SameFifo-IsFifo : {sio sio' : Sio} → SameFifo sio sio' → IsFifo sio → IsFifo sio'
SameFifo-IsFifo s v = record {
  rx_buf_length = omega (arith, s.0, v.rx_buf_length);
  rx_pos-rx_len = omega (arith, s.2, s.1, v.rx_pos-rx_len);
  rx_len-le = omega (arith, s.1, v.rx_len-le);
  write_length = omega (arith, s.3, v.write_length);
}

-- The invariant from its four parts, and an empty buffer.
pub fits-IsFifo :
    (sio : Sio)
    → (length sio.rx_buf ≡ 16)
      × (sio.rx_pos ≤ sio.rx_len)
      × (sio.rx_len ≤ 16)
      × (length sio.memcard_write ≡ 128)
    → IsFifo sio
fits-IsFifo sio h = record {
  rx_buf_length = h.0;
  rx_pos-rx_len = h.1;
  rx_len-le = h.2;
  write_length = h.3;
}

pub emptied : {sio : Sio} → IsFifo sio → IsFifo (record sio { rx_pos = 0; rx_len = 0 })
emptied v = record {
  rx_buf_length = v.rx_buf_length;
  rx_pos-rx_len = omega arith;
  rx_len-le = omega arith;
  write_length = v.write_length;
}

pub drop_read-IsFifo : {sio : Sio} → IsFifo sio → IsFifo (drop_read sio)
drop_read-IsFifo {sio} v = if-cases IsFifo (leb sio.rx_len sio.rx_pos) (emptied v) v

advanced :
    {sio : Sio}
    → IsFifo sio
    → sio.rx_pos < sio.rx_len
    → IsFifo (record sio { rx_pos = u8 (sio.rx_pos + 1) })
advanced {sio} v h = record {
  rx_buf_length = v.rx_buf_length;
  rx_pos-rx_len = omega (arith, v.rx_len-le);
  rx_len-le = v.rx_len-le;
  write_length = v.write_length;
}

pub load_rx_data-IsFifo : {sio : Sio} → IsFifo sio → IsFifo (load_rx_data sio).0
unfolding load_rx_data
load_rx_data-IsFifo {sio} v = elim (Bool-cases (ltb sio.rx_pos sio.rx_len)) [
  | inl e ↦ rw e (
      SameFifo-IsFifo (refl, refl, refl, refl)
        (drop_read-IsFifo (advanced v (ltb→lt sio.rx_pos sio.rx_len e))))
  | inr e ↦ rw e (SameFifo-IsFifo (refl, refl, refl, refl) (drop_read-IsFifo v))
]

pub reset_transaction-IsFifo : {sio : Sio} → IsFifo sio → IsFifo (reset_transaction sio)
unfolding reset_transaction
reset_transaction-IsFifo v = SameFifo-IsFifo (refl, refl, refl, refl) (emptied v)

pub address_device-SameFifo : (sio : Sio) (val : ℕ) → SameFifo sio (address_device sio val)
unfolding address_device
address_device-SameFifo sio val = ground arith

put_pad-SameFifo : (sio : Sio) (p : PadState) → SameFifo sio (put_pad sio p)
put_pad-SameFifo sio p = ground arith

read_response-Leaves : (sio : Sio) (n : ℕ) → Leaves sio (read_response sio n)
unfolding read_response
read_response-Leaves sio n = ground arith

module _ (write_file : List ℕ → Bytes → Bool) where
  write_response-Leaves :
      (sio : Sio) (n value : ℕ) → Leaves sio (write_response write_file sio n value)
  unfolding write_response
  write_response-Leaves sio n value = ground (arith, length-set sio.memcard_write (n - 6) value)

  memcard_response-Leaves :
      (sio : Sio) (value : ℕ) → Leaves sio (memcard_response write_file sio value)
  unfolding memcard_response
  memcard_response-Leaves sio value =
      let at_next = record sio { memcard_pos = u16 (sio.memcard_pos + 1) } in
      ground (
        arith,
        read_response-Leaves at_next sio.memcard_pos,
        write_response-Leaves at_next sio.memcard_pos value,
      )

  pub device_response-Leaves :
      (sio : Sio) (val : ℕ) → Leaves sio (device_response write_file sio val)
  unfolding device_response pad_response_byte
  device_response-Leaves sio val =
      if-cases (Leaves sio) (sio.selected && sio.memcard_access) (memcard_response-Leaves sio val) (
        if-cases (Leaves sio) (sio.selected && sio.pad_access) (put_pad-SameFifo sio _)
          (refl, refl, refl, refl))

  -- What the reply does to the buffer: one byte is put at its end.
  pub respond_lem :
      (sio : Sio) (val : ℕ)
      → let (after, response) = device_response write_file sio val in
        ((respond write_file sio val).rx_buf ≡ set after.rx_buf after.rx_len response)
        × ((respond write_file sio val).rx_len ≡ u8 (after.rx_len + 1))
        × ((respond write_file sio val).rx_pos ≡ after.rx_pos)
        × ((respond write_file sio val).memcard_write ≡ after.memcard_write)
  unfolding respond schedule_ack_irq
  respond_lem sio val = ground arith

  respond-IsFifo :
      {sio : Sio} (val : ℕ) → IsFifo sio → sio.rx_len < 16 → IsFifo (respond write_file sio val)
  respond-IsFifo {sio} val v h =
      let (after, response) = device_response write_file sio val in
      let r = respond_lem sio val in
      let s = device_response-Leaves sio val in
      record {
        rx_buf_length =
            ap length r.0 ∙ length-set after.rx_buf after.rx_len response ∙ s.0 ∙ v.rx_buf_length;
        rx_pos-rx_len = omega (arith, r.1, r.2, s.1, s.2, v.rx_pos-rx_len);
        rx_len-le = omega (arith, r.1, s.1);
        write_length = ap length r.3 ∙ s.3 ∙ v.write_length;
      }

  pub store_tx_data-IsFifo :
      {sio : Sio} (val : ℕ) → IsFifo sio → IsFifo (store_tx_data write_file sio val)
  unfolding store_tx_data
  store_tx_data-IsFifo {sio} val v =
      let addressed = address_device (drop_read sio) val in
      let a : IsFifo addressed =
        SameFifo-IsFifo (address_device-SameFifo (drop_read sio) val) (drop_read-IsFifo v) in
      elim (Bool-cases (ltb addressed.rx_len 16)) [
        | inl e ↦ rw e (
            SameFifo-IsFifo (refl, refl, refl, refl)
              (respond-IsFifo val a (ltb→lt addressed.rx_len 16 e)))
        | inr e ↦ rw e (SameFifo-IsFifo (refl, refl, refl, refl) a)
      ]
