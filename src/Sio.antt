-- ===== src/Sio.antt =====
-- sio.h and sio.c: the state of the serial port of the controllers and memory cards.
pub mod Pads
pub mod Card
pub mod Registers
pub mod Buttons
pub mod Timing
pub mod Fifo
pub mod Run
pub mod Exchange
pub mod Poll
pub mod WriteSector
pub mod ReadSector
pub mod RoundTrip
pub mod CardFileLaws
use psx_emulator_em_c.Base.{
  ℕ, ◌-◌, ◌^◌, ◌*◌, ◌%◌, Bool, true, false, ◌&&◌, ◌||◌, not, ◌==◌, ◌!=◌, ltb, if◌then◌else◌, bit_or,
  u8, ◌>>◌, low_bits, List, [], replicate, Option, none, some,
}

-- `PadState`.
pub record PadState : Type 0 where
  pub buttons : ℕ
  pub right_x : ℕ
  pub right_y : ℕ
  pub left_x : ℕ
  pub left_y : ℕ
  pub analog_enabled : Bool
  pub config_mode : Bool
  pub mode_locked : Bool
  pub config_query : ℕ

-- `Sio`. The bytes of the card are a function from offsets; the path is the list of its characters
-- before the terminating 0.
pub record Sio : Type 0 where
  pub rx_data : ℕ
  pub stat : ℕ
  pub mode : ℕ
  pub ctrl : ℕ
  pub baud : ℕ
  pub rx_buf : List ℕ
  pub rx_len : ℕ
  pub rx_pos : ℕ
  pub tx_count : ℕ
  pub selected : Bool
  pub slot2 : Bool
  pub memcard_access : Bool
  pub pad_access : Bool
  pub pad_command : ℕ
  pub ack_active : Bool
  pub irq_pending : Bool
  pub irq_cycles_remaining : ℕ
  pub memcard_data : ℕ → ℕ
  pub memcard_write : List ℕ
  pub memcard_path : List ℕ
  pub memcard_sector : ℕ
  pub memcard_pos : ℕ
  pub memcard_command : ℕ
  pub memcard_checksum : ℕ
  pub memcard_received_checksum : ℕ
  pub memcard_present : Bool
  pub memcard_new : Bool
  pub memcard_corrupt : Bool
  pub memcard_write_valid : Bool
  pub keyboard_buttons : ℕ
  pub controller_buttons : ℕ
  pub controller_buttons_port2 : ℕ
  pub forced_buttons : ℕ
  pub pad : PadState
  pub pad_port2 : PadState

-- SIO_MEMCARD_SIZE and SIO_MEMCARD_SECTOR_SIZE.
abbrev pub memcard_size : ℕ
memcard_size = 128 * 1024

abbrev pub memcard_sector_size : ℕ
memcard_sector_size = 128

-- `(uint16_t)~mask`.
abbrev pub not16 : ℕ → ℕ
not16 mask = 2 ^ 16 - 1 - mask % 2 ^ 16

unfoldable pub refresh_pad_buttons : Sio → Sio
refresh_pad_buttons sio =
    let pressed = bit_or (bit_or sio.keyboard_buttons sio.controller_buttons) sio.forced_buttons in
    record sio {
      pad = record (sio.pad) { buttons = not16 pressed };
      pad_port2 = record (sio.pad_port2) { buttons = not16 sio.controller_buttons_port2 };
    }

unfoldable pub reset_transaction : Sio → Sio
reset_transaction sio = record sio {
  rx_len = 0;
  rx_pos = 0;
  tx_count = 0;
  selected = false;
  slot2 = false;
  memcard_access = false;
  pad_access = false;
  pad_command = 0;
  ack_active = false;
  memcard_pos = 0;
  memcard_command = 0;
  memcard_checksum = 0;
  memcard_received_checksum = 0;
  memcard_write_valid = false;
}

abbrev pub reload_factor : ℕ → ℕ
reload_factor i = if i == 3 then 64 else if i == 2 then 16 else 1

unfoldable pub serial_byte_cycles : Sio → ℕ
serial_byte_cycles sio =
    let reload = if sio.baud != 0 then sio.baud else 1 in
    let cycles = reload * reload_factor (low_bits sio.mode 2) * 8 in
    if ltb (2 ^ 32 - 1) cycles then 2 ^ 32 - 1 else cycles

unfoldable pub schedule_ack_irq : Sio → Sio
schedule_ack_irq sio = record sio { irq_cycles_remaining = serial_byte_cycles sio }

unfoldable pub build_stat : Sio → ℕ
build_stat sio =
    let s = bit_or (2 ^ 0) (2 ^ 2) in
    let s = if ltb sio.rx_pos sio.rx_len then bit_or s (2 ^ 1) else s in
    let s = if sio.ack_active then bit_or s (2 ^ 7) else s in
    if sio.irq_pending then bit_or s (2 ^ 9) else s

-- A pad after `memset`.
abbrev pub zero_pad : PadState
zero_pad = record {
  buttons = 0;
  right_x = 0;
  right_y = 0;
  left_x = 0;
  left_y = 0;
  analog_enabled = false;
  config_mode = false;
  mode_locked = false;
  config_query = 0;
}

abbrev pub zero_sio : Sio
zero_sio = record {
  rx_data = 0;
  stat = 0;
  mode = 0;
  ctrl = 0;
  baud = 0;
  rx_buf = replicate 16 0;
  rx_len = 0;
  rx_pos = 0;
  tx_count = 0;
  selected = false;
  slot2 = false;
  memcard_access = false;
  pad_access = false;
  pad_command = 0;
  ack_active = false;
  irq_pending = false;
  irq_cycles_remaining = 0;
  memcard_data = λ i. 0;
  memcard_write = replicate memcard_sector_size 0;
  memcard_path = [];
  memcard_sector = 0;
  memcard_pos = 0;
  memcard_command = 0;
  memcard_checksum = 0;
  memcard_received_checksum = 0;
  memcard_present = false;
  memcard_new = false;
  memcard_corrupt = false;
  memcard_write_valid = false;
  keyboard_buttons = 0;
  controller_buttons = 0;
  controller_buttons_port2 = 0;
  forced_buttons = 0;
  pad = zero_pad;
  pad_port2 = zero_pad;
}

abbrev pub centre_sticks : PadState → PadState
centre_sticks p = record p { right_x = 0x80; right_y = 0x80; left_x = 0x80; left_y = 0x80 }

unfoldable pub sio_init : Sio
sio_init =
    let sio = refresh_pad_buttons zero_sio in
    record sio {
      pad = centre_sticks sio.pad;
      pad_port2 = centre_sticks sio.pad_port2;
      stat = bit_or (2 ^ 0) (2 ^ 2);
      baud = 0x0088;
    }
