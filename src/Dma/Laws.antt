-- ===== src/Dma/Laws.antt =====
-- The DMA controller's interrupt register: fields, acknowledgement and the flags of the channels.
use psx_emulator_em_c.Base.{
  ◌&&◌, sym, ◌∙◌, ==_iff, test_bit, if◌then◌else◌, ◌==◌, ℕ, ◌-◌, ◌^◌, ◌<◌, ◌≡◌, ◌≢◌, inl, inr, refl,
  arith, Bool, true, false, ◌||◌, ◌!=◌, if◌then◌else◌, some, of_bool, of_bool-le, bit, test_bit,
  low_bits, set_bit, ◌>>◌, bit_and, bit_and-le, ◌↔◌, zero, suc, ap, bit-bit_and, zero-bit,
  bit-set_bit_ne, Bool-cases, min, not32,
}
use native.Mathlib.Nat.{mod-eq_of_lt}
use psx_emulator_em_c.Irq.{Irq, irq_dma, irq_assert}
use psx_emulator_em_c.Dma.{
  Dma, Port, port_mdec_in, port_value, port_from_index, dma_irq, dma_interrupt, dma_set_interrupt,
  dma_mark_channel_done, dma_step,
}

pub record IsValid (d : Dma) : Type 0 where
  pub enables_small : d.channel_irq_en < 2 ^ 7
  pub flags_small : d.channel_irq_flags < 2 ^ 7
  pub dummy_small : d.irq_dummy < 2 ^ 6

port_value-lt : (p : Port) → port_value p < 7
port_value-lt port_mdec_in = omega arith
port_value-lt _ = omega arith

set_bit-lt : (p : Port) (x : ℕ) → x < 2 ^ 7 → set_bit x (port_value p) < 2 ^ 7
set_bit-lt port_mdec_in x h = omega arith
set_bit-lt _ x h = omega arith

set_bit_self : (p : Port) (x : ℕ) → bit (set_bit x (port_value p)) (port_value p) ≡ 1
set_bit_self port_mdec_in x = omega arith
set_bit_self _ x = omega arith

-- `port_from_index` gives exactly the port that has the index; for an index that no port has the
-- program ends.
pub port_from_index_iff : (p : Port) (i : ℕ) → (port_from_index i ≡ some p) ↔ (port_value p ≡ i)
unfolding port_from_index
port_from_index_iff port_mdec_in i = ground arith
port_from_index_iff _ i = ground arith

not32-bit : (k x : ℕ) → k < 7 → x < 2 ^ 7 → bit (not32 x) k ≡ 1 - bit x k
not32-bit zero x hk hx = omega arith
not32-bit (suc zero) x hk hx = omega arith
not32-bit (suc (suc zero)) x hk hx = omega arith
not32-bit (suc (suc (suc zero))) x hk hx = omega arith
not32-bit (suc (suc (suc (suc zero)))) x hk hx = omega arith
not32-bit (suc (suc (suc (suc (suc zero))))) x hk hx = omega arith
not32-bit (suc (suc (suc (suc (suc (suc zero)))))) x hk hx = omega arith
not32-bit (suc (suc (suc (suc (suc (suc (suc k))))))) x hk hx = absurd (omega arith)

pub dma_set_interrupt-IsValid : {d : Dma} (val : ℕ) → IsValid d → IsValid (dma_set_interrupt d val)
unfolding dma_set_interrupt
dma_set_interrupt-IsValid {d} val v =
    omega (arith, bit_and-le d.channel_irq_flags (not32 (low_bits (val >> 24) 7)))

-- A write of the interrupt register acknowledges channels: the flag of channel `k` stays exactly
-- if it was set and bit 24 + k of the written word is 0. The enables, the master enable and the
-- forced request are taken from the word. Before, the flags and the enables have 7 bits and the field
-- without a meaning has 6.
pub dma_set_interrupt_lem :
    (d : Dma) (val k : ℕ)
    → IsValid d
    → k < 7
    → let d' = dma_set_interrupt d val in
      (bit d'.channel_irq_flags k
        ≡ min (bit d.channel_irq_flags k) (1 - bit (low_bits (val >> 24) 7) k))
      × (d'.channel_irq_en ≡ low_bits (val >> 16) 7)
      × (d'.irq_en ≡ test_bit val 23)
      × (d'.force_irq ≡ test_bit val 15)
unfolding dma_set_interrupt
dma_set_interrupt_lem d val k v hk =
    let ack = low_bits (val >> 24) 7 in
    let small : bit_and d.channel_irq_flags (not32 ack) < 2 ^ 8 =
      omega (arith, bit_and-le d.channel_irq_flags (not32 ack)) in
    (
      rw (mod-eq_of_lt small, bit-bit_and k d.channel_irq_flags (not32 ack))
          (ap (min (bit d.channel_irq_flags k)) (not32-bit k ack hk (omega arith))),
      refl,
      refl,
      refl,
    )

pub dma_mark_channel_done-IsValid :
    {d : Dma} (p : Port) → IsValid d → IsValid (dma_mark_channel_done d p)
unfolding dma_mark_channel_done
dma_mark_channel_done-IsValid {d} p v =
    ground (arith, set_bit-lt p d.channel_irq_flags v.flags_small)

-- The fields that the interrupt register shows are those that are stored, and its top bit is the
-- state of the interrupt line: bits 0 to 5, 15, 16 to 22, 23, 24 to 30 and 31. The flags and the
-- enables have 7 bits, and the field without a meaning has 6.
pub dma_interrupt-fields :
    (d : Dma)
    → IsValid d
    → let w = dma_interrupt d in
      (low_bits w 6 ≡ d.irq_dummy)
      × (bit w 15 ≡ of_bool d.force_irq)
      × (low_bits (w >> 16) 7 ≡ d.channel_irq_en)
      × (bit w 23 ≡ of_bool d.irq_en)
      × (low_bits (w >> 24) 7 ≡ d.channel_irq_flags)
      × (bit w 31 ≡ of_bool (dma_irq d))
unfolding dma_interrupt
dma_interrupt-fields d v =
    let force = of_bool-le d.force_irq in
    let enable = of_bool-le d.irq_en in
    let line = of_bool-le (dma_irq d) in
    (omega arith, omega arith, omega arith, omega arith, omega arith, omega arith)

or-true : (b : Bool) → (b || true) ≡ true
or-true true = refl
or-true false = refl

raised : (x y k : ℕ) → bit x k ≡ 1 → bit y k ≡ 1 → (bit_and x y != 0) ≡ true
raised x y k hx hy = elim (Bool-cases (bit_and x y != 0)) [
  | inl e ↦ e
  | inr e ↦ absurd (nonzero (ground arith))
]
  where
    nonzero : bit_and x y ≢ 0
    nonzero e = omega (arith, bit-bit_and k x y, ap (λ (w : ℕ). bit w k) e, zero-bit k)

dma_irq-raised :
    (d : Dma) (k : ℕ)
    → d.irq_en ≡ true
    → bit d.channel_irq_flags k ≡ 1
    → bit d.channel_irq_en k ≡ 1
    → dma_irq d ≡ true
unfolding dma_irq
dma_irq-raised d k e f b =
    rw (e, raised d.channel_irq_flags d.channel_irq_en k f b) (or-true d.force_irq)

reported : Dma → Port → Bool
reported d p = d.irq_en && test_bit d.channel_irq_en (port_value p)

mark_as : Bool → Dma → Port → Dma
mark_as b d p =
    if b then record d { channel_irq_flags = set_bit d.channel_irq_flags (port_value p) } else d

mark-as : (d : Dma) (p : Port) → dma_mark_channel_done d p ≡ mark_as (reported d p) d p
unfolding dma_mark_channel_done mark_as reported
mark-as d p = refl

set_bit-digit :
    (p : Port) (x k : ℕ)
    → bit (set_bit x (port_value p)) k ≡ (if port_value p == k then 1 else bit x k)
set_bit-digit p x k = elim (Bool-cases (port_value p == k)) [
  | inl e ↦
      rw e (
        ap (bit (set_bit x (port_value p))) (sym ((==_iff (port_value p) k).0 e))
        ∙ set_bit_self p x)
  | inr e ↦ rw e (bit-set_bit_ne (port_value p) k x (ground arith))
]

mark_as-lem :
    (b : Bool) (d : Dma) (p : Port) (k : ℕ)
    → reported d p ≡ b
    → let d' = mark_as b d p in
      (bit d'.channel_irq_flags k
        ≡ (if b && port_value p == k then 1 else bit d.channel_irq_flags k))
      × (dma_irq d' ≡ (if b then true else dma_irq d))
      × (d'.irq_pending ≡ d.irq_pending)
unfolding mark_as reported
mark_as-lem true d p k h = (
  set_bit-digit p d.channel_irq_flags k,
  dma_irq-raised (record d { channel_irq_flags = set_bit d.channel_irq_flags (port_value p) })
      (port_value p) (ground arith) (set_bit_self p d.channel_irq_flags) (ground arith),
  refl,
)
mark_as-lem false d p k h = (refl, refl, refl)

-- A finished transfer is reported when its channel's interrupt and the controller's are both enabled:
-- then the channel's flag is set and the interrupt line is up. Otherwise the line is where it was. No
-- other flag changes, and neither does the request that is pending.
pub dma_mark_channel_done_lem :
    (d : Dma) (p : Port) (k : ℕ)
    → let d' = dma_mark_channel_done d p in
      let on = d.irq_en && test_bit d.channel_irq_en (port_value p) in
      (bit d'.channel_irq_flags k
        ≡ (if on && port_value p == k then 1 else bit d.channel_irq_flags k))
      × (dma_irq d' ≡ (if on then true else dma_irq d))
      × (d'.irq_pending ≡ d.irq_pending)
unfolding reported
dma_mark_channel_done_lem d p k = rw (mark-as d p) (mark_as-lem (reported d p) d p k refl)

-- `dma_step` hands a pending interrupt on once: it asserts the DMA line and forgets the request, so
-- that a second step changes nothing.
pub dma_step_twice :
    (d : Dma) (irq : Irq)
    → let (d', irq') = dma_step d irq in
      (dma_step d' irq' ≡ (d', irq'))
      × (irq' ≡ (if d.irq_pending then irq_assert irq irq_dma else irq))
unfolding dma_step
dma_step_twice d irq = ground arith
