-- ===== src/Ram/Laws.antt =====
-- Little-endian loads and stores of main memory fit together at every width.
use psx_emulator_em_c.Base.{
  ℕ, if◌then◌else◌, ◌==◌, ◌+◌, ◌%◌, ◌^◌, ◌<◌, ◌≡◌, arith, some, u8, add32, ◌>>◌,
}
use psx_emulator_em_c.Ram.{Ram, ram_size, ram_load32, ram_load16, ram_load8, ram_store32}

-- The memory after a store of four bytes.
stored : Ram → ℕ → ℕ → Ram
stored ram offset val = record {
  data_at = λ j.
      if add32 offset 3 == j
      then u8 (val >> 24)
      else if add32 offset 2 == j
      then u8 (val >> 16)
      else if add32 offset 1 == j
      then u8 (val >> 8)
      else if offset == j
      then u8 val
      else ram.data_at j;
}

-- A store of a 32-bit word inside the memory succeeds; a load of a word, half or byte at that address
-- then gives the word or its low part. The four bytes of the word stand in the memory, the lowest
-- first, and every other byte is as before.
pub ram_load-ram_store32 :
    (ram : Ram) (offset val : ℕ)
    → offset + 3 < ram_size
    → val < 2 ^ 32
    → (ram' : Ram) × (ram_store32 ram offset val ≡ some ram')
      × (ram_load32 ram' offset ≡ some val)
      × (ram_load16 ram' offset ≡ some (val % 2 ^ 16))
      × (ram_load8 ram' offset ≡ some (val % 2 ^ 8))
      × ((i : ℕ)
          → ram'.data_at i ≡ (
              if i == offset
              then u8 val
              else if i == offset + 1
              then u8 (val >> 8)
              else if i == offset + 2
              then u8 (val >> 16)
              else if i == offset + 3
              then u8 (val >> 24)
              else ram.data_at i))
unfolding stored ram_store32 ram_load32 ram_load16 ram_load8
ram_load-ram_store32 ram offset val h hv = (
  stored ram offset val,
  ground arith,
  ground arith,
  ground arith,
  ground arith,
  λ i. ground arith,
)
