-- ===== src/Sio/Card.antt =====
-- sio.c: the memory card: its file, its format and the commands that read and write a sector.
use psx_emulator_em_c.Base.{
  ℕ, zero, suc, ◌+◌, ◌-◌, ◌*◌, Bool, true, false, ◌&&◌, ◌||◌, not, ◌==◌, ltb, leb, if◌then◌else◌,
  bit_or, bit_xor, u8, u16, ◌<<◌, ◌>>◌, low_bits, ℤ, pos, negsuc, List, [], ◌∷◌, length, get_or,
  set, Option, none, some,
}
use psx_emulator_em_c.Sio.{Sio, reset_transaction, memcard_size, memcard_sector_size}

-- Bytes behind a pointer, and a write of one.
abbrev pub Bytes : Type 0
Bytes = ℕ → ℕ

abbrev pub put_byte : Bytes → ℕ → ℕ → Bytes
put_byte bytes at value = λ i. if i == at then value else bytes i

-- One pass of the loop over the 15 directory frames, and of the one over the frames from 16 on.
abbrev pub format_directory : Bytes → ℕ → Bytes
format_directory bytes block =
    let frame = (block + 1) * memcard_sector_size in
    let bytes = put_byte (put_byte bytes frame 0xa0) (frame + 8) 0x00 in
    put_byte (put_byte (put_byte bytes (frame + 9) 0xff) (frame + 10) 0xff) (frame + 127) 0xa0

abbrev pub format_broken_list : Bytes → ℕ → Bytes
format_broken_list bytes frame_index =
    let frame = frame_index * memcard_sector_size in
    let bytes = put_byte (put_byte bytes (frame + 3) 0xff) (frame + 2) 0xff in
    let bytes = put_byte (put_byte bytes (frame + 1) 0xff) frame 0xff in
    put_byte (put_byte bytes (frame + 9) 0xff) (frame + 8) 0xff

-- `for (i = first; i < first + count; i++)`.
unfoldable pub for_each : (Bytes → ℕ → Bytes) → ℕ → ℕ → Bytes → Bytes
for_each body first zero bytes = bytes
for_each body first (suc count) bytes = for_each body (suc first) count (body bytes first)

unfoldable pub format_memory_card : Bytes → Bytes
format_memory_card bytes =
    let bytes : Bytes = λ i. if ltb i memcard_size then 0 else bytes i in
    let bytes = put_byte (put_byte (put_byte bytes 0 0x4d) 1 0x43) 127 0x0e in
    for_each format_broken_list 16 20 (for_each format_directory 0 15 bytes)

-- The checksum of the `count` bytes from `at` on.
unfoldable pub xor_bytes : Bytes → ℕ → ℕ → ℕ → ℕ
xor_bytes bytes checksum at zero = checksum
xor_bytes bytes checksum at (suc count) =
    xor_bytes bytes (bit_xor checksum (bytes at)) (suc at) count

unfoldable pub frames_valid : Bytes → ℕ → ℕ → Bool
frames_valid bytes frame_index zero = true
frames_valid bytes frame_index (suc count) =
    let frame = frame_index * memcard_sector_size in
    let rest = frames_valid bytes (suc frame_index) count in
    if xor_bytes bytes 0 frame (memcard_sector_size - 1) == bytes (frame + memcard_sector_size - 1)
    then rest
    else false

unfoldable pub memory_card_metadata_valid : Bytes → Bool
memory_card_metadata_valid bytes =
    if not (bytes 0 == 0x4d) || not (bytes 1 == 0x43) then false else frames_valid bytes 0 36

unfoldable pub sio_memory_card_eject : Sio → Sio
sio_memory_card_eject sio =
    reset_transaction
      (record sio { memcard_present = false; memcard_new = false; memcard_path = [] })

abbrev pub is_empty : List ℕ → Bool
is_empty [] = true
is_empty (c ∷ cs) = false

-- What `fopen` and `fread` give: no file of that name, another error, or the bytes that the buffer has
-- afterwards, how many were read, whether more follow, and whether the stream has an error.
pub data CardFile : Type 0 where
  absent : CardFile
  unreadable : CardFile
  opened : Bytes → ℕ → Bool → Bool → CardFile

-- The phases of a sector's read and write after the address, from position 6 on. `at` is the
-- position of this byte.
abbrev pub sector_offset : Sio → ℕ
sector_offset sio = low_bits sio.memcard_sector 10 * memcard_sector_size

unfoldable pub read_response : Sio → ℕ → Sio × ℕ
read_response sio at =
    let byte = sio.memcard_data (sector_offset sio + at - 10) in
    if at == 6
    then (sio, 0x5c)
    else if at == 7
    then (sio, 0x5d)
    else if at == 8
    then (sio, u8 (sio.memcard_sector >> 8))
    else if at == 9
    then (sio, u8 sio.memcard_sector)
    else if leb 10 at && ltb at 138
    then (record sio { memcard_checksum = bit_xor sio.memcard_checksum byte }, byte)
    else if at == 138
    then (sio, sio.memcard_checksum)
    else if at == 139
    then (record sio { memcard_new = false }, 0x47)
    else (sio, 0xff)

-- `memcpy` of the sector's buffer.
abbrev pub put_sector : Bytes → ℕ → List ℕ → Bytes
put_sector old at sector =
    λ i. if leb at i && ltb i (at + 128) then get_or sector (i - at) 0 else old i

-- A result that is 0.
abbrev pub is_done : ℤ → Bool
is_done (pos n) = n == 0
is_done (negsuc n) = false

-- Whether the bytes reach the file at a path: the outcome of the file operations of this call.
module _ (write_file : List ℕ → Bytes → Bool) where
  unfoldable pub sio_memory_card_flush : Sio → ℤ
  sio_memory_card_flush sio =
      if not sio.memcard_present || is_empty sio.memcard_path
      then negsuc 0
      else if write_file sio.memcard_path sio.memcard_data
      then pos 0
      else negsuc 0

  abbrev pub flushed : Sio → Bool
  flushed sio = is_done (sio_memory_card_flush sio)

  -- The rest of `sio_memory_card_load`, over what is at the path.
  unfoldable pub mount_file : Sio → List ℕ → CardFile → Sio × ℤ
  mount_file sio path absent =
      let sio = record sio {
        memcard_data = format_memory_card sio.memcard_data;
        memcard_path = path;
        memcard_present = true;
        memcard_new = true;
        memcard_corrupt = false;
      } in
      if flushed sio then (sio, pos 1) else (sio_memory_card_eject sio, negsuc 0)
  mount_file sio path unreadable = (sio, negsuc 0)
  mount_file sio path (opened bytes size extra read_error) =
      let sio = record sio { memcard_data = bytes; memcard_path = path } in
      let valid_size = size == memcard_size && not extra in
      if read_error || not valid_size || not (memory_card_metadata_valid bytes)
      then (record sio { memcard_present = false; memcard_corrupt = true }, negsuc 0)
      else (
        record sio { memcard_present = true; memcard_new = false; memcard_corrupt = false },
        pos 0,
      )

  -- `none` is a null pointer. The last argument is what `fopen` and `fread` give in this call.
  unfoldable pub sio_memory_card_load : Sio → Option (List ℕ) → CardFile → Sio × ℤ
  sio_memory_card_load sio none file = (sio, negsuc 0)
  sio_memory_card_load sio (some path) file =
      if is_empty path || leb 512 (length path) then (sio, negsuc 0) else mount_file sio path file

  unfoldable pub write_response : Sio → ℕ → ℕ → Sio × ℕ
  write_response sio at value =
      let index = at - 6 in
      if leb 6 at && ltb at 134
      then (let sio = record sio {
        memcard_write = set sio.memcard_write index value;
        memcard_checksum = bit_xor sio.memcard_checksum value;
      } in
          (
            sio,
            if index == 0 then u8 sio.memcard_sector else get_or sio.memcard_write (index - 1) 0,
          ))
      else if at == 134
      then (
        record sio {
          memcard_received_checksum = value;
          memcard_write_valid = value == sio.memcard_checksum && ltb sio.memcard_sector 1024;
        },
        get_or sio.memcard_write 127 0,
      )
      else if at == 135
      then (sio, 0x5c)
      else if at == 136
      then (sio, 0x5d)
      else if at == 137
      then (if sio.memcard_write_valid
          then (let sio = record sio {
            memcard_data = put_sector sio.memcard_data (sector_offset sio) sio.memcard_write;
            memcard_new = false;
          } in
              (sio, if flushed sio then 0x47 else 0x4e))
          else (sio, 0x4e))
      else (sio, 0xff)

  unfoldable pub memcard_response : Sio → ℕ → Sio × ℕ
  memcard_response sio value =
      let at = sio.memcard_pos in
      let sio = record sio { memcard_pos = u16 (at + 1) } in
      if at == 0
      then (sio, 0xff)
      else if at == 1
      then (record sio { memcard_command = value }, if sio.memcard_new then 0x08 else 0x00)
      else if at == 2
      then (sio, 0x5a)
      else if at == 3
      then (sio, 0x5d)
      else if at == 4
      then (record sio { memcard_sector = u16 (value << 8); memcard_checksum = value }, 0x00)
      else if at == 5
      then (let sector = bit_or sio.memcard_sector value in
          (
            record sio {
              memcard_sector = sector;
              memcard_checksum = bit_xor sio.memcard_checksum value;
            },
            u8 (sector >> 8),
          ))
      else if sio.memcard_command == 0x52
      then read_response sio at
      else if sio.memcard_command == 0x57
      then write_response sio at value
      else (sio, 0xff)
