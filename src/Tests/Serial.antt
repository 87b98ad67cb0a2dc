-- ===== src/Tests/Serial.antt =====
-- Runs of the serial port, whose files can be written.
use psx_emulator_em_c.Base.{
  ◌<◌, bit, ◌-◌, ◌||◌, negsuc, ℕ, ◌+◌, ◌*◌, ◌≡◌, refl, arith, Bool, true, false, List, [], ◌∷◌,
  ◌++◌, ◌==◌, ◌&&◌, if◌then◌else◌, ltb, leb, replicate, some, pos, low_bits, u8, ◌>>◌, bit_xor,
  get_or,
}
use psx_emulator_em_c.Irq.{irq_init}
use psx_emulator_em_c.Sio.{
  serial_byte_cycles, schedule_ack_irq, Sio, zero_sio, sio_init, reset_transaction, memcard_size,
}
use psx_emulator_em_c.Sio.Pads.{pad_response_byte, pad_response_length, active_pad}
use psx_emulator_em_c.Sio.Card.{
  Bytes, absent, opened, format_memory_card, memcard_response, put_sector, flushed,
  sio_memory_card_load,
}
use psx_emulator_em_c.Sio.Registers.{
  sio_load8, sio_store8, sio_store16, sio_step, sio_cycles_until_event, address_device,
  device_response, drop_read,
}
use psx_emulator_em_c.Sio.Buttons.{Key}
use psx_emulator_em_c.Sio.Fifo.{IsFifo, fits-IsFifo}
use psx_emulator_em_c.Sio.Run.{start, use_of, by_load8, by_store8, by_store16, Used-IsFifo}
use psx_emulator_em_c.Interconnect.{Interconnect, interconnect_init}
use psx_emulator_em_c.Interconnect.Load.{interconnect_load8}
use psx_emulator_em_c.Interconnect.Store.{interconnect_store8}
use psx_emulator_em_c.Interconnect.SerialPort.{with_sio, load8-store8}
use psx_emulator_em_c.Tests.Traffic.{quiet}
use psx_emulator_em_c.Sio.Poll.{poll_reply, pad_response_byte-poll}
use psx_emulator_em_c.Sio.WriteSector.{
  after, replies, sector_of, checksum_of, memcard_response-write,
}
use psx_emulator_em_c.Sio.ReadSector.{bytes_from, memcard_response-read}
use psx_emulator_em_c.Sio.RoundTrip.{memcard_response-read_write}
use psx_emulator_em_c.Sio.CardFileLaws.{sio_memory_card_load-made}
use psx_emulator_em_c.Sio.Timing.{run_steps, sio_step-sio_step, run_steps-schedule_ack_irq}

abbrev written_file : List ℕ → Bytes → Bool
written_file path bytes = true

abbrev keys : Key → ℕ
keys key = 0

-- A port that is selected, with a card, about to be acknowledged, and polled.
abbrev port : Sio
port = record zero_sio {
  selected = true;
  memcard_present = true;
  irq_cycles_remaining = 100;
  pad_command = 0x42;
}

port-IsFifo : IsFifo port
port-IsFifo = fits-IsFifo port (refl, omega arith, omega arith, refl)

abbrev data_bytes : List ℕ
data_bytes = replicate 128 7

-- Selecting a pad, sending its address and reading the reply.
Used-IsFifo_example :
    IsFifo (sio_load8 (sio_store8 written_file (sio_store16 sio_init 0xa 0x1003) 0 0x01) 0).0
Used-IsFifo_example = Used-IsFifo keys (
    use_of _ _
      (use_of _ _ (use_of _ _ start (by_store16 sio_init 0xa 0x1003))
        (by_store8 written_file (sio_store16 sio_init 0xa 0x1003) 0 0x01))
      (by_load8 (sio_store8 written_file (sio_store16 sio_init 0xa 0x1003) 0 0x01) 0))

abbrev bus : Interconnect (Sio × List ℕ)
bus = interconnect_init (record { data_at = λ i. 0 }) (port, [])

load8-store8_example :
    let addressed = address_device (drop_read port) (u8 0x81) in
    let reply = (device_response written_file addressed (u8 0x81)).1 in
    let dev = with_sio written_file quiet in
    (sent : Interconnect (Sio × List ℕ)) × (sio : Sio) × (interconnect_store8 dev bus 0x1f80_1040
        0x81
      ≡ some sent)
    × (interconnect_load8 dev sent 0x1f80_1040 ≡ some (reply, record bus { devices = (sio, []) }))
    × (sio.rx_pos ≡ 0)
    × (sio.rx_len ≡ 0)
unfolding interconnect_init
load8-store8_example = load8-store8 written_file quiet bus 0x81 port-IsFifo refl

pad_response_byte-poll_example :
    pad_response_byte port 3 0 ≡ (port, get_or (poll_reply (active_pad port)) 3 0xff)
unfolding pad_response_length
pad_response_byte-poll_example = pad_response_byte-poll port 3 0 refl (omega arith)

memcard_response-write_example :
    let sector = sector_of 0 5 in
    let valid = 9 == checksum_of (bit_xor 0 5) data_bytes && ltb sector 1024 in
    let sent = 0x81 ∷ 0x57 ∷ 0 ∷ 0 ∷ 0 ∷ 5 ∷ (data_bytes ++ (9 ∷ 0 ∷ 0 ∷ [])) in
    let (done, reply) =
      memcard_response written_file (after written_file (reset_transaction port) sent) 0 in
    (done.memcard_data ≡ (
      if valid
      then put_sector port.memcard_data (low_bits sector 10 * 128) data_bytes
      else port.memcard_data))
    × (reply ≡ (if valid && flushed written_file done then 0x47 else 0x4e))
memcard_response-write_example =
    memcard_response-write written_file port 0 5 9 data_bytes port-IsFifo refl

memcard_response-read_example :
    let sector = sector_of 0 5 in
    let bytes = bytes_from port.memcard_data (low_bits sector 10 * 128) 128 in
    replies written_file
      (reset_transaction port)
      (0x81 ∷ 0x52 ∷ 0 ∷ 0 ∷ 0 ∷ 5 ∷ 0 ∷ 0 ∷ 0 ∷ 0 ∷ (data_bytes ++ (0 ∷ 0 ∷ [])))
    ≡ 0xff
      ∷ (if port.memcard_new then 0x08 else 0x00)
      ∷ 0x5a
      ∷ 0x5d
      ∷ 0x00
      ∷ u8 (sector >> 8)
      ∷ 0x5c
      ∷ 0x5d
      ∷ u8 (sector >> 8)
      ∷ u8 sector
      ∷ (bytes ++ (checksum_of (bit_xor 0 5) bytes ∷ 0x47 ∷ []))
memcard_response-read_example =
    memcard_response-read written_file port 0 5 0 0 0 0 0 0 data_bytes refl

memcard_response-read_write_example :
    let sector = sector_of 0 5 in
    let checksum = checksum_of (bit_xor 0 5) data_bytes in
    let written =
      (memcard_response written_file
        (after written_file
          (reset_transaction port)
          (0x81 ∷ 0x57 ∷ 0 ∷ 0 ∷ 0 ∷ 5 ∷ (data_bytes ++ (checksum ∷ 0 ∷ 0 ∷ []))))
        0).0 in
    replies written_file
      (reset_transaction written)
      (0x81 ∷ 0x52 ∷ 0 ∷ 0 ∷ 0 ∷ 5 ∷ 0 ∷ 0 ∷ 0 ∷ 0 ∷ (data_bytes ++ (0 ∷ 0 ∷ [])))
    ≡ 0xff
      ∷ (if written.memcard_new then 0x08 else 0x00)
      ∷ 0x5a
      ∷ 0x5d
      ∷ 0x00
      ∷ u8 (sector >> 8)
      ∷ 0x5c
      ∷ 0x5d
      ∷ u8 (sector >> 8)
      ∷ u8 sector
      ∷ (data_bytes ++ (checksum ∷ 0x47 ∷ []))
memcard_response-read_write_example =
    memcard_response-read_write written_file port 0 5 0 0 0 0 0 0 data_bytes data_bytes port-IsFifo
      refl refl (omega arith)

sio_memory_card_load-made_example :
    let written = format_memory_card zero_sio.memcard_data in
    let done = written_file (0x63 ∷ []) written in
    let (made, result) = sio_memory_card_load written_file zero_sio (some (0x63 ∷ [])) absent in
    let (loaded, result') =
      sio_memory_card_load written_file zero_sio
        (some (0x63 ∷ []))
        (opened written memcard_size false false) in
    (result ≡ (if done then pos 1 else negsuc 0))
    × (made.memcard_present ≡ done)
    × (made.memcard_new ≡ done)
    × (result' ≡ pos 0)
    × (loaded.memcard_data ≡ written)
    × (loaded.memcard_present ≡ true)
    × (loaded.memcard_new ≡ false)
sio_memory_card_load-made_example =
    sio_memory_card_load-made written_file written_file zero_sio zero_sio 0x63 [] (omega arith)

sio_step-sio_step_example :
    (sio_step (sio_step port irq_init 40).0 irq_init 60).0 ≡ (sio_step port irq_init (40 + 60)).0
sio_step-sio_step_example = sio_step-sio_step port irq_init irq_init 40 60

run_steps-schedule_ack_irq_example :
    let due = serial_byte_cycles port in
    let scheduled = schedule_ack_irq port in
    let (after, irq') = run_steps scheduled irq_init (3 ∷ 2 ∷ 4 ∷ []) in
    let up = leb due 9 in
    (sio_cycles_until_event scheduled ≡ due)
    × (0 < due)
    × (after.irq_cycles_remaining ≡ (if up then 0 else due - 9))
    × (after.irq_pending ≡ (if up then true else port.irq_pending))
    × (after.ack_active ≡ (if up then true else port.ack_active))
    × ((if up then bit after.stat 7 else 1) ≡ 1)
    × ((if up then bit after.stat 9 else 1) ≡ 1)
    × ((if up then bit irq'.status 7 else 1) ≡ 1)
    × ((if up || port.irq_pending then irq_init else irq') ≡ irq_init)
run_steps-schedule_ack_irq_example = run_steps-schedule_ack_irq port irq_init (3 ∷ 2 ∷ 4 ∷ [])
