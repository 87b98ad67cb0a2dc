-- ===== src/Bios.antt =====
-- bios.h and bios.c: the loads of the boot ROM. Its image is read from a file when the machine
-- starts, and no operation changes it.
use psx_emulator_em_c.Base.{ℕ, ◌+◌, ◌*◌, Option, none, some, ltb, if◌then◌else◌, ◌<<◌}
use psx_emulator_em_c.Ram.{◌>>=◌}

abbrev pub bios_size : ℕ
bios_size = 512 * 1024

-- `data[i]` for every index below `bios_size`.
pub record Bios : Type 0 where
  pub data_at : ℕ → ℕ

-- An access of byte `i` of an array of `size` bytes. `none` is an index out of range, which C
-- leaves undefined.
abbrev pub byte_of : ℕ → (ℕ → ℕ) → ℕ → Option ℕ
byte_of size bytes i = if ltb i size then some (bytes i) else none

-- Little-endian words and halves of such an array. The bytes take different bits, so the sum is
-- the source's `|`.
unfoldable pub word_of : ℕ → (ℕ → ℕ) → ℕ → Option ℕ
word_of size bytes offset = do
  b0 ← byte_of size bytes offset
  b1 ← byte_of size bytes (offset + 1)
  b2 ← byte_of size bytes (offset + 2)
  b3 ← byte_of size bytes (offset + 3)
  some (b0 + b1 << 8 + b2 << 16 + b3 << 24)

unfoldable pub half_of : ℕ → (ℕ → ℕ) → ℕ → Option ℕ
half_of size bytes offset = do
  b0 ← byte_of size bytes offset
  b1 ← byte_of size bytes (offset + 1)
  some (b0 + b1 << 8)

unfoldable pub bios_load32 : Bios → ℕ → Option ℕ
bios_load32 bios offset = word_of bios_size bios.data_at offset

unfoldable pub bios_load16 : Bios → ℕ → Option ℕ
bios_load16 bios offset = half_of bios_size bios.data_at offset

unfoldable pub bios_load8 : Bios → ℕ → Option ℕ
bios_load8 bios offset = byte_of bios_size bios.data_at offset
