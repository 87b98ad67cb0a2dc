-- ===== src/Cpu/UnalignedAccess.antt =====
-- cpu.c: `lwl` with `lwr`, and `swl` with `swr`, reach a word at any address.
use psx_emulator_em_c.Base.{
  ℕ, ◌+◌, ◌%◌, ◌^◌, ◌<◌, ◌≡◌, ◌⊎◌, inl, inr, ap, ◌∙◌, arith, low_bits, clear_low, ◌<<◌,
}
use psx_emulator_em_c.Cpu.Arithmetic.{lwl_merge, lwr_merge, swl_merge, swr_merge}

-- The little-endian word of a byte memory.
abbrev pub load_word : (ℕ → ℕ) → ℕ → ℕ
load_word byte a = byte a + byte (a + 1) << 8 + byte (a + 2) << 16 + byte (a + 3) << 24

-- The four lanes, over the bytes of the two aligned words.
module _ (b0 b1 b2 b3 b4 b5 b6 b7 cur : ℕ) where
  abbrev word0 : ℕ
  word0 = b0 + b1 << 8 + b2 << 16 + b3 << 24

  abbrev word1 : ℕ
  word1 = b4 + b5 << 8 + b6 << 16 + b7 << 24

  abbrev AreBytes : Type 0
  AreBytes =
      (b0 < 256)
      × (b1 < 256)
      × (b2 < 256)
      × (b3 < 256)
      × (b4 < 256)
      × (b5 < 256)
      × (b6 < 256)
      × (b7 < 256)

  lane_one :
      AreBytes → lwr_merge 1 (lwl_merge 0 cur word1) word0 ≡ b1 + b2 << 8 + b3 << 16 + b4 << 24
  unfolding lwl_merge lwr_merge
  lane_one h = omega arith

  lane_two :
      AreBytes → lwr_merge 2 (lwl_merge 1 cur word1) word0 ≡ b2 + b3 << 8 + b4 << 16 + b5 << 24
  unfolding lwl_merge lwr_merge
  lane_two h = omega arith

  lane_three :
      AreBytes → lwr_merge 3 (lwl_merge 2 cur word1) word0 ≡ b3 + b4 << 8 + b5 << 16 + b6 << 24
  unfolding lwl_merge lwr_merge
  lane_three h = omega arith

abbrev Lane : ℕ → Type 0
Lane x = (x % 4 ≡ 0) ⊎ ((x % 4 ≡ 1) ⊎ ((x % 4 ≡ 2) ⊎ (x % 4 ≡ 3)))

Lane-cases : (x : ℕ) → Lane x
Lane-cases x = ground arith

-- Four bytes from `x` on, named from another address.
load_word-moved :
    (byte : ℕ → ℕ) (x a b c d : ℕ)
    → x ≡ a
    → x + 1 ≡ b
    → x + 2 ≡ c
    → x + 3 ≡ d
    → byte a + byte b << 8 + byte c << 16 + byte d << 24 ≡ load_word byte x
load_word-moved byte x a b c d e f g h = omega (arith, ap byte e, ap byte f, ap byte g, ap byte h)

module _ (byte : ℕ → ℕ) (cur : ℕ) (small : (a : ℕ) → byte a < 256) where
  abbrev Unaligned : ℕ → Type 0
  Unaligned x =
      lwr_merge (low_bits x 2)
        (lwl_merge (low_bits (x + 3) 2) cur (load_word byte (clear_low (x + 3) 2)))
        (load_word byte (clear_low x 2))
      ≡ load_word byte x

  from_lanes :
      (x l k : ℕ)
      → low_bits x 2 ≡ l
      → low_bits (x + 3) 2 ≡ k
      → lwr_merge l
          (lwl_merge k cur (load_word byte (clear_low (x + 3) 2)))
          (load_word byte (clear_low x 2))
        ≡ load_word byte x
      → Unaligned x
  from_lanes x l k el ek h = rw (el, ek) h

  -- A lane's law at the bytes of two aligned words.
  abbrev bytes_at :
      (a b : ℕ)
      → AreBytes
          (byte a)
          (byte (a + 1))
          (byte (a + 2))
          (byte (a + 3))
          (byte b)
          (byte (b + 1))
          (byte (b + 2))
          (byte (b + 3))
          cur
  bytes_at a b = (
    small a,
    small (a + 1),
    small (a + 2),
    small (a + 3),
    small b,
    small (b + 1),
    small (b + 2),
    small (b + 3),
  )

  Unaligned-load : (x : ℕ) → Unaligned x
  unfolding lwl_merge lwr_merge
  Unaligned-load x =
      let a = clear_low x 2 in
      let b = clear_low (x + 3) 2 in
      elim (Lane-cases x) [
        | inl e ↦ from_lanes x 0 3 e (omega arith) (
            load_word-moved byte x a (a + 1) (a + 2) (a + 3) (omega arith) (omega arith)
              (omega arith) (omega arith))
        | inr (inl e) ↦ from_lanes x 1 0 e (omega arith) (
            lane_one (byte a) (byte (a + 1)) (byte (a + 2)) (byte (a + 3)) (byte b) (byte (b + 1))
              (byte (b + 2)) (byte (b + 3)) cur (bytes_at a b)
            ∙ load_word-moved byte x (a + 1) (a + 2) (a + 3) b (omega arith) (omega arith)
                (omega arith) (omega arith))
        | inr (inr (inl e)) ↦ from_lanes x 2 1 e (omega arith) (
            lane_two (byte a) (byte (a + 1)) (byte (a + 2)) (byte (a + 3)) (byte b) (byte (b + 1))
              (byte (b + 2)) (byte (b + 3)) cur (bytes_at a b)
            ∙ load_word-moved byte x (a + 2) (a + 3) b (b + 1) (omega arith) (omega arith)
                (omega arith) (omega arith))
        | inr (inr (inr e)) ↦ from_lanes x 3 2 e (omega arith) (
            lane_three (byte a) (byte (a + 1)) (byte (a + 2)) (byte (a + 3)) (byte b) (byte (b + 1))
              (byte (b + 2)) (byte (b + 3)) cur (bytes_at a b)
            ∙ load_word-moved byte x (a + 3) b (b + 1) (b + 2) (omega arith) (omega arith)
                (omega arith) (omega arith))
      ]

-- In a memory of bytes, the merge of `lwl` at address `x + 3` and then that of `lwr` at `x` give the
-- little-endian word at `x`, at each of the four alignments and whatever is merged with.
pub lwr_merge-lwl_merge :
    (byte : ℕ → ℕ) (cur x : ℕ)
    → ((a : ℕ) → byte a < 256)
    → lwr_merge
        (low_bits x 2)
        (lwl_merge (low_bits (x + 3) 2) cur (load_word byte (clear_low (x + 3) 2)))
        (load_word byte (clear_low x 2))
      ≡ load_word byte x
lwr_merge-lwl_merge byte cur x small = Unaligned-load byte cur small x

-- Let `w0` and `w1` be two words in a row. `swl` of `v` into the upper and `swr` of `v` into the
-- lower, for an address 1, 2 or 3 bytes past the lower, put the 32 bits of `v` at that place in
-- the 64 bits and leave all others. At offset 0 each stores `v` itself.
pub swr_merge-swl_merge :
    (w0 w1 v : ℕ)
    → w0 < 2 ^ 32
    → w1 < 2 ^ 32
    → v < 2 ^ 32
    → (swr_merge 0 w0 v ≡ v)
      × (swl_merge 3 w0 v ≡ v)
      × (swr_merge 1 w0 v + swl_merge 0 w1 v << 32 ≡ low_bits w0 8 + v << 8 + clear_low w1 8 << 32)
      × (swr_merge 2 w0 v + swl_merge 1 w1 v << 32
          ≡ low_bits w0 16 + v << 16 + clear_low w1 16 << 32)
      × (swr_merge 3 w0 v + swl_merge 2 w1 v << 32
          ≡ low_bits w0 24 + v << 24 + clear_low w1 24 << 32)
unfolding swr_merge swl_merge
swr_merge-swl_merge w0 w1 v h0 h1 hv =
    (omega arith, omega arith, omega arith, omega arith, omega arith)
