-- ===== src/Ram.antt =====
-- ram.h and ram.c: the 2 MiB of main memory, little-endian.
pub mod Laws
use psx_emulator_em_c.Base.{
  ℕ, ◌+◌, ◌*◌, ◌/◌, ◌%◌, ◌^◌, Option, none, some, ltb, ◌==◌, if◌then◌else◌, u8, u32, ◌<<◌, ◌>>◌,
  add32,
}

abbrev pub ram_size : ℕ
ram_size = 2 * 1024 * 1024

-- `data[i]` for every index below `ram_size`.
pub record Ram : Type 0 where
  pub data_at : ℕ → ℕ

unfoldable pub ram_init : Ram
ram_init = record { data_at = λ i. 0xca }

infixl 5 ◌>>=◌
abbrev pub ◌>>=◌ : {A B : Type 0} → Option A → (A → Option B) → Option B
none >>= f = none
some a >>= f = f a

-- An access of `data[i]`. `none` is an index out of range, which C leaves undefined.
abbrev pub fetch : Ram → ℕ → Option ℕ
fetch ram i = if ltb i ram_size then some (ram.data_at i) else none

abbrev pub put : Ram → ℕ → ℕ → Option Ram
put ram i val =
    if ltb i ram_size
    then some (record { data_at = λ j. if i == j then u8 val else ram.data_at j })
    else none

-- The bytes take different bits, so the sum is the source's `|`.
unfoldable pub ram_load32 : Ram → ℕ → Option ℕ
ram_load32 ram offset = do
  b0 ← fetch ram offset
  b1 ← fetch ram (add32 offset 1)
  b2 ← fetch ram (add32 offset 2)
  b3 ← fetch ram (add32 offset 3)
  some (b0 + b1 << 8 + b2 << 16 + b3 << 24)

unfoldable pub ram_load16 : Ram → ℕ → Option ℕ
ram_load16 ram offset = do
  b0 ← fetch ram offset
  b1 ← fetch ram (add32 offset 1)
  some (b0 + b1 << 8)

unfoldable pub ram_load8 : Ram → ℕ → Option ℕ
ram_load8 ram offset = fetch ram offset

unfoldable pub ram_store32 : Ram → ℕ → ℕ → Option Ram
ram_store32 ram offset val = do
  ram ← put ram offset val
  ram ← put ram (add32 offset 1) (val >> 8)
  ram ← put ram (add32 offset 2) (val >> 16)
  put ram (add32 offset 3) (val >> 24)

unfoldable pub ram_store16 : Ram → ℕ → ℕ → Option Ram
ram_store16 ram offset val = do ram ← put ram offset val; put ram (add32 offset 1) (val >> 8)

unfoldable pub ram_store8 : Ram → ℕ → ℕ → Option Ram
ram_store8 ram offset val = put ram offset val
