-- ===== src/Interconnect/InterruptByte.antt =====
-- interconnect.c: `dma_reg_write8` on the interrupt register, whose flags are cleared by writing 1.
use psx_emulator_em_c.Base.{
  ℕ, ◌+◌, ◌-◌, ◌*◌, ◌/◌, ◌^◌, ◌<◌, ◌≤◌, ◌≡◌, refl, ap, ◌∙◌, arith, some, ◌<<◌, ◌>>◌, low_bits,
  clear_low, u8, not32, bit_and, bit_or, bit_and-low, bit_or-zero, bit_or-shift, bit_and-shift,
  bit_and-complement,
}
use native.Mathlib.Nat.{pow-le-pow_right, mul-le-mul_left}
use psx_emulator_em_c.Dma.{Dma, dma_interrupt, dma_set_interrupt}
use psx_emulator_em_c.Dma.Laws.{IsValid, dma_interrupt-fields}
use psx_emulator_em_c.Interconnect.{Interconnect, Devices}
use psx_emulator_em_c.Interconnect.Registers.{merge8}
use psx_emulator_em_c.Interconnect.Transfer.{dma_update_irq}
use psx_emulator_em_c.Interconnect.Control.{dma_reg_read, dma_reg_write, dma_reg_write8}

-- A byte merged below bit 24 leaves the highest byte of the word.
merge8-high :
    (word val shift : ℕ) → val < 2 ^ 8 → shift ≤ 16 → merge8 word val shift >> 24 ≡ u8 (word >> 24)
unfolding merge8
merge8-high word val shift hv hs =
    bit_or-shift 24 (bit_and word (not32 (0xff << shift))) (val << shift)
    ∙ ap (bit_or (bit_and word (not32 (0xff << shift)) / 2 ^ 24)) (gone shift hs)
    ∙ bit_or-zero (bit_and word (not32 (0xff << shift)) / 2 ^ 24)
    ∙ bit_and-shift 24 word (not32 (0xff << shift))
    ∙ ap (bit_and (word / 2 ^ 24)) (kept shift hs)
    ∙ bit_and-low 8 (word / 2 ^ 24)
  where
    power : (k : ℕ) → k ≤ 16 → 2 ^ k ≤ 2 ^ 16
    power k h = omega (arith, pow-le-pow_right {n = 2} (omega arith) {i = k} {j = 16} h)

    gone : (k : ℕ) → k ≤ 16 → val * 2 ^ k / 2 ^ 24 ≡ 0
    gone k h = let m = mul-le-mul_left {m = 2 ^ k} {n = 2 ^ 16} val (power k h) in omega arith

    kept : (k : ℕ) → k ≤ 16 → (2 ^ 32 - 1 - 0xff * 2 ^ k) / 2 ^ 24 ≡ 0xff
    kept k h = omega (arith, power k h)

acknowledged :
    (d : Dma) (word : ℕ)
    → d.channel_irq_flags < 2 ^ 7
    → low_bits (word >> 24) 7 ≡ d.channel_irq_flags
    → (dma_set_interrupt d word).channel_irq_flags ≡ 0
unfolding dma_set_interrupt
acknowledged d word h e = rw e (ap u8 (bit_and-complement 32 d.channel_irq_flags (omega arith)))

-- A byte that is written to the interrupt register of the DMA controller, below its highest byte,
-- acknowledges every channel: the flags are read, and written back as 1. The flags and the enables
-- have 7 bits before, and the field without a meaning has 6.
pub dma_reg_write8-interrupt :
    {D : Type 0} (dev : Devices D) (inter : Interconnect D) (i val : ℕ)
    → IsValid inter.dma
    → i < 3
    → val < 2 ^ 8
    → (inter' : Interconnect D) × (dma_reg_write8 dev inter (0x74 + i) val ≡ some inter')
      × ((inter'.dma).channel_irq_flags ≡ 0)
unfolding dma_reg_write8 dma_reg_read dma_reg_write dma_update_irq
dma_reg_write8-interrupt dev inter i val v hi hv =
    let aligned : clear_low (0x74 + i) 2 ≡ 0x74 = omega arith in
    let word = dma_interrupt inter.dma in
    let merged = merge8 word val (low_bits (0x74 + i) 2 * 8) in
    let high = merge8-high word val (low_bits (0x74 + i) 2 * 8) hv (omega arith) in
    let f = dma_interrupt-fields inter.dma v in
    let e : low_bits (merged >> 24) 7 ≡ (inter.dma).channel_irq_flags = omega (arith, high, f.4) in
    rw aligned (_, refl, acknowledged inter.dma merged v.flags_small e)
