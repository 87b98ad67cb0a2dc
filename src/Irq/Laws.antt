-- ===== src/Irq/Laws.antt =====
-- What the interrupt controller's operations do to each request line.
use psx_emulator_em_c.Base.{
  ◌==◌, if◌then◌else◌, ℕ, zero, suc, sym, inl, inr, Bool-cases, bit-suc, zero-bit, ◌/◌, ◌%◌, ◌^◌,
  ◌<◌, ◌≡◌, ◌≢◌, ◌↔◌, refl, ap, ◌∙◌, true, ◌!=◌, arith, bit, min, bit_and, u16, set_bit,
  bit-bit_and, bit_and-lt, bit_or-lt, bit_or-bit,
}
use native.Mathlib.Decide.{dec_lt}
use native.Mathlib.Nat.{div-one, pow-suc}
use psx_emulator_em_c.Irq.{
  Irq, IrqFlag, flag_bit, flag_value, irq_assert, irq_pending, irq_load32, irq_store32, irq_vblank,
}

-- Both registers are `uint16_t`.
pub record IsValid (irq : Irq) : Type 0 where
  pub status_half : irq.status < 2 ^ 16
  pub mask_half : irq.mask < 2 ^ 16

flag_value-lt : (f : IrqFlag) → flag_value f < 2 ^ 16
flag_value-lt irq_vblank = omega arith
flag_value-lt _ = omega arith

pub irq_assert-IsValid : {irq : Irq} (f : IrqFlag) → IsValid irq → IsValid (irq_assert irq f)
unfolding irq_assert
irq_assert-IsValid {irq} f v = record {
  status_half = bit_or-lt 16 irq.status (flag_value f) v.status_half (flag_value-lt f);
  mask_half = v.mask_half;
}

-- Raising a line sets its bit of I_STAT, whatever the other lines are: the status is that of
-- before with one bit set, and reading I_MASK gives what it gave.
pub irq_assert-status :
    (irq : Irq) (f : IrqFlag)
    → ((irq_assert irq f).status ≡ set_bit irq.status (flag_bit f))
      × ((irq_assert irq f).mask ≡ irq.mask)
unfolding irq_assert
irq_assert-status irq f = (bit_or-bit (flag_bit f) irq.status, refl)

-- A write of I_STAT, at offset 0, acknowledges by zeroes: line by line, a request stays only if it
-- was there and its bit is written as 1, so no write raises a request. A write of I_MASK, at offset 4,
-- replaces the mask. A write elsewhere changes neither register, nor does one change the other's.
pub irq_store32_lem :
    (irq : Irq) (offset val k : ℕ)
    → let irq' = irq_store32 irq offset val in
      (bit (irq_load32 irq' 0) k ≡ (
        if offset == 0
        then min (bit (irq_load32 irq 0) k) (bit (u16 val) k)
        else bit (irq_load32 irq 0) k))
      × (irq_load32 irq' 4 ≡ (if offset == 4 then u16 val else irq_load32 irq 4))
unfolding irq_store32 irq_load32
irq_store32_lem irq offset val k = ground (arith, bit-bit_and k irq.status (u16 val))

-- A word that is not 0 has a bit.
find_bit : (n x : ℕ) → x < 2 ^ n → x ≢ 0 → (k : ℕ) × (bit x k ≡ 1)
find_bit zero x h ne = absurd (omega arith)
find_bit (suc n) x h ne = elim (dec_lt (x % 2) 1) [
  | yes even ↦
      let (k, b) = find_bit n (x / 2) (omega (arith, pow-suc 2 n)) (omega arith) in
      (suc k, bit-suc x k ∙ b)
  | no odd ↦ (0, rw (div-one x) (omega arith))
]

-- `irq_pending` holds exactly when some line is both raised in I_STAT and unmasked in I_MASK, for
-- registers of 16 bits.
pub irq_pending_iff :
    (irq : Irq)
    → IsValid irq
    → (irq_pending irq ≡ true)
      ↔ ((k : ℕ) × (bit (irq_load32 irq 0) k ≡ 1) × (bit (irq_load32 irq 4) k ≡ 1))
unfolding irq_pending irq_load32
irq_pending_iff irq v = (
  λ h.
      let (k, b) =
        find_bit 16 (bit_and irq.status irq.mask)
          (bit_and-lt 16 irq.status irq.mask v.status_half v.mask_half) (ground arith) in
      (
        k,
        omega (arith, bit-bit_and k irq.status irq.mask, b),
        omega (arith, bit-bit_and k irq.status irq.mask, b),
      ),
  λ (k, s, m). meet k (omega (arith, bit-bit_and k irq.status irq.mask, s, m)),
)
  where
    nonzero : (k : ℕ) → bit (bit_and irq.status irq.mask) k ≡ 1 → bit_and irq.status irq.mask ≢ 0
    nonzero k b e = omega (arith, sym b ∙ ap (λ (x : ℕ). bit x k) e ∙ zero-bit k)

    meet :
        (k : ℕ)
        → bit (bit_and irq.status irq.mask) k ≡ 1
        → (bit_and irq.status irq.mask != 0) ≡ true
    meet k b = elim (Bool-cases (bit_and irq.status irq.mask != 0)) [
      | inl e ↦ e
      | inr e ↦ absurd (nonzero k b (ground arith))
    ]
