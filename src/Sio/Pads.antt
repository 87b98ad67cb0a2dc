-- ===== src/Sio/Pads.antt =====
-- sio.c: what the pads reply, byte by byte.
use psx_emulator_em_c.Base.{ℕ, ◌&&◌, ◌||◌, not, ◌==◌, ◌!=◌, if◌then◌else◌, u8, ◌>>◌, low_bits}
use psx_emulator_em_c.Sio.{Sio, PadState}

-- `sio->slot2 ? &sio->pad_port2 : &sio->pad`, read and written.
abbrev pub active_pad : Sio → PadState
active_pad sio = if sio.slot2 then sio.pad_port2 else sio.pad

abbrev pub put_pad : Sio → PadState → Sio
put_pad sio p = if sio.slot2 then record sio { pad_port2 = p } else record sio { pad = p }

abbrev pub pad_id : PadState → ℕ
pad_id p = if p.config_mode then 0xf3 else if p.analog_enabled then 0x73 else 0x41

-- What the command in `cases 3` and 4 sets in the pad, and what is replied to it.
unfoldable pub pad_byte3 : PadState → ℕ → ℕ → PadState × ℕ
pad_byte3 p command value =
    if command == 0x45
    then (p, 0x01)
    else if command == 0x46 || command == 0x4c
    then (record p { config_query = low_bits value 1 }, 0x00)
    else if command == 0x47 || command == 0x4d
    then (p, 0x00)
    else if command == 0x43
    then (record p { config_mode = value == 0x01 }, 0x00)
    else if command == 0x44 && p.config_mode && not p.mode_locked
    then (record p { analog_enabled = value == 0x01 }, 0x00)
    else (p, if command == 0x42 then u8 p.buttons else 0x00)

unfoldable pub pad_byte4 : PadState → ℕ → ℕ → PadState × ℕ
pad_byte4 p command value =
    if command == 0x45
    then (p, 0x02)
    else if command == 0x46 || command == 0x47 || command == 0x4c
    then (p, 0x00)
    else if command == 0x4d
    then (p, 0x01)
    else if command == 0x44 && p.config_mode
    then (record p { mode_locked = value == 0x03 }, 0x00)
    else (p, if command == 0x42 then u8 (p.buttons >> 8) else 0x00)

-- The replies of a command that changes nothing: to 0x45, 0x46, 0x47, 0x4C and 0x4D, and to 0x42 of
-- an analog pad.
unfoldable pub pad_query : PadState → ℕ → ℕ → ℕ → ℕ → ℕ → ℕ → ℕ → ℕ
pad_query p command r45 r46 r47 r4c r4d stick =
    if command == 0x45
    then r45
    else if command == 0x46
    then r46
    else if command == 0x47
    then r47
    else if command == 0x4c
    then r4c
    else if command == 0x4d
    then r4d
    else if command == 0x42 && p.analog_enabled
    then stick
    else 0x00

unfoldable pub pad_byte : PadState → ℕ → ℕ → ℕ → PadState × ℕ
pad_byte p command index value =
    let queried = p.config_query != 0 in
    if index == 0
    then (p, 0xff)
    else if index == 1
    then (p, pad_id p)
    else if index == 2
    then (p, 0x5a)
    else if index == 3
    then pad_byte3 p command value
    else if index == 4
    then pad_byte4 p command value
    else if index == 5
    then (
      p,
      pad_query p command (if p.analog_enabled then 0x01 else 0x00) 0x01 0x02 0x00 0xff p.right_x,
    )
    else if index == 6
    then (
      p,
      pad_query p command 0x02 (if queried then 0x01 else 0x02) 0x00
          (if queried then 0x07 else 0x04) 0xff p.right_y,
    )
    else if index == 7
    then (p, pad_query p command 0x01 (if queried then 0x01 else 0x00) 0x01 0x00 0xff p.left_x)
    else if index == 8
    then (p, pad_query p command 0x00 (if queried then 0x14 else 0x0a) 0x00 0x00 0xff p.left_y)
    else (p, 0xff)

unfoldable pub pad_response_byte : Sio → ℕ → ℕ → Sio × ℕ
pad_response_byte sio index value =
    let (p, reply) = pad_byte (active_pad sio) sio.pad_command index value in (put_pad sio p, reply)

unfoldable pub pad_response_length : Sio → ℕ
pad_response_length sio =
    if sio.pad_command == 0x42 then (if (active_pad sio).analog_enabled then 9 else 5) else 9
