-- ===== src/Cpu/ArithmeticLaws.antt =====
-- cpu.c: what the arithmetic inside the opcode handlers computes.
use native.Mathlib.Nat.{mod-lt, div-add-mod, div-le_self, mod-le, mul-div-le}
use psx_emulator_em_c.Base.{
  true, false, is_neg, refl, ◌==◌, ◌&&◌, Bool-cases, inl, inr, ℕ, suc, ◌+◌, ◌-◌, ◌*◌, ◌/◌, ◌^◌, ◌<◌,
  ◌≤◌, ◌≡◌, ◌≢◌, ◌↔◌, ap, ◌∙◌, arith, some, ℤ, pos, negsuc, ◌+ℤ◌, ◌-ℤ◌, ◌*ℤ◌, ◌/ℤ◌, ◌%ℤ◌, to_u32,
  to_u64, ltb, if◌then◌else◌, pos_part, neg_part, abs, signed32, FitsInt32,
}
use psx_emulator_em_c.Cpu.State.{Cpu}
use psx_emulator_em_c.Cpu.Alu.{op_div, rs, rt}
use psx_emulator_em_c.Cpu.Arithmetic.{halves, sub_overflow, div32, divu32, mult32, multu32}

-- The subtraction of `sub` of two words gives a word exactly when the difference of the two
-- signed values fits 32 bits, and that word is the difference.
pub sub_overflow_iff :
    (s t r : ℕ)
    → s < 2 ^ 32
    → t < 2 ^ 32
    → r < 2 ^ 32
    → (sub_overflow s t ≡ some r)
      ↔ (FitsInt32 (signed32 s -ℤ signed32 t) × (signed32 r ≡ signed32 s -ℤ signed32 t))
unfolding sub_overflow ◌-ℤ◌
sub_overflow_iff s t r hs ht hr = ground arith

-- `divu` of a 32-bit dividend by a divisor that is not 0 leaves quotient and remainder:
-- quotient times divisor plus remainder is the dividend, and the remainder is smaller than the
-- divisor.
pub divu32_lem :
    (n d : ℕ)
    → d ≢ 0
    → n < 2 ^ 32
    → ((divu32 n d).lo * d + (divu32 n d).hi ≡ n) × ((divu32 n d).hi < d)
unfolding divu32
divu32_lem n d h hn = ground (arith, div-add-mod n d, mod-lt n {m = d})

mul-lt : (s t : ℕ) → s < 2 ^ 32 → t < 2 ^ 32 → s * t < 2 ^ 64
mul-lt s t hs ht = grind arith

-- `multu` leaves the whole product.
pub multu32_lem :
    (s t : ℕ) → s < 2 ^ 32 → t < 2 ^ 32 → ((multu32 s t).hi * 2 ^ 32 + (multu32 s t).lo ≡ s * t)
unfolding multu32
multu32_lem s t hs ht = omega (arith, mul-lt s t hs ht)

quot_rem : (a b : ℤ) → abs b ≢ 0 → ((a /ℤ b) *ℤ b +ℤ (a %ℤ b) ≡ a) × (abs (a %ℤ b) < abs b)
unfolding ◌/ℤ◌ ◌%ℤ◌ ◌*ℤ◌ ◌+ℤ◌
quot_rem (pos n) (pos d) h = ground (arith, div-add-mod n d, mod-lt n {m = d})
quot_rem (pos n) (negsuc d) h = ground (arith, div-add-mod n (suc d), mod-lt n {m = suc d})
quot_rem (negsuc n) (pos d) h = ground (arith, div-add-mod (suc n) d, mod-lt (suc n) {m = d})
quot_rem (negsuc n) (negsuc d) h =
    ground (arith, div-add-mod (suc n) (suc d), mod-lt (suc n) {m = suc d})

signed32-to_u32 : (a : ℤ) → FitsInt32 a → signed32 (to_u32 a) ≡ a
signed32-to_u32 (pos n) h = ground arith
signed32-to_u32 (negsuc n) h = ground arith

-- A quotient by at least 2 is at most half.
div-le-half : (n d : ℕ) → 1 < d → n / d ≤ n / 2
div-le-half n d h =
    let twice : 2 * (n / d) ≤ d * (n / d) = grind arith in omega (arith, mul-div-le n d)

quot-FitsInt32 :
    (a b : ℤ)
    → FitsInt32 a
    → abs b ≢ 0
    → (neg_part a ≡ 2 ^ 31 → neg_part b ≢ 1)
    → FitsInt32 (a /ℤ b)
unfolding ◌/ℤ◌
quot-FitsInt32 (pos n) (pos d) f h g = ground (arith, div-le_self n d)
quot-FitsInt32 (pos n) (negsuc d) f h g = ground (arith, div-le_self n (suc d))
quot-FitsInt32 (negsuc n) (pos d) f h g = ground (arith, div-le_self (suc n) d)
quot-FitsInt32 (negsuc n) (negsuc d) f h g =
    ground (arith, div-le_self (suc n) (suc d), div-le-half (suc n) (suc d))

rem-FitsInt32 : (a b : ℤ) → FitsInt32 a → FitsInt32 (a %ℤ b)
unfolding ◌%ℤ◌
rem-FitsInt32 a b f = ground (arith, mod-le (abs a) (abs b))

signed32-FitsInt32 : (w : ℕ) → w < 2 ^ 32 → FitsInt32 (signed32 w)
signed32-FitsInt32 w h = ground arith

div32_general :
    (n d : ℕ)
    → d ≢ 0
    → (n ≡ 0x8000_0000 → d ≢ 0xffff_ffff)
    → div32 n d
      ≡ record { hi = to_u32 (signed32 n %ℤ signed32 d); lo = to_u32 (signed32 n /ℤ signed32 d) }
unfolding div32
div32_general n d h g = ground arith

-- The remainder has the sign of the dividend.
rem_sign : (a b : ℤ) → (if is_neg a then pos_part (a %ℤ b) else neg_part (a %ℤ b)) ≡ 0
unfolding ◌%ℤ◌
rem_sign (pos n) b = refl
rem_sign (negsuc n) b = ground arith

div32_proper :
    (n d : ℕ)
    → n < 2 ^ 32
    → d < 2 ^ 32
    → d ≢ 0
    → (n ≡ 0x8000_0000 → d ≢ 0xffff_ffff)
    → let q = signed32 (div32 n d).lo in
      let r = signed32 (div32 n d).hi in
      (q *ℤ signed32 d +ℤ r ≡ signed32 n)
      × (abs r < abs (signed32 d))
      × ((if is_neg (signed32 n) then pos_part r else neg_part r) ≡ 0)
div32_proper n d hn hd h g =
    let nonzero : abs (signed32 d) ≢ 0 = ground arith in
    let fits = signed32-FitsInt32 n hn in
    let quot_fits : FitsInt32 (signed32 n /ℤ signed32 d) =
      quot-FitsInt32 (signed32 n) (signed32 d) fits nonzero (ground arith) in
    let law = quot_rem (signed32 n) (signed32 d) nonzero in
    rw
      (
        div32_general n d h g,
        signed32-to_u32 (signed32 n /ℤ signed32 d) quot_fits,
        signed32-to_u32 (signed32 n %ℤ signed32 d) (rem-FitsInt32 (signed32 n) (signed32 d) fits),
      )
      (law.0, law.1, rem_sign (signed32 n) (signed32 d))

-- What a signed division of two words leaves in HI and LO, in its three cases.
abbrev pub IsDivision : ℕ → ℕ → ℕ → ℕ → Type 0
IsDivision n d hi lo =
    if d == 0
    then (hi ≡ n) × (signed32 lo ≡ (if is_neg (signed32 n) then pos 1 else negsuc 0))
    else if n == 0x8000_0000 && d == 0xffff_ffff
    then (hi ≡ 0) × (lo ≡ n)
    else (signed32 lo *ℤ signed32 d +ℤ signed32 hi ≡ signed32 n)
      × (abs (signed32 hi) < abs (signed32 d))
      × ((if is_neg (signed32 n) then pos_part (signed32 hi) else neg_part (signed32 hi)) ≡ 0)

div32_by_zero :
    (n d : ℕ)
    → (d == 0) ≡ true
    → ((div32 n d).hi ≡ n)
      × (signed32 (div32 n d).lo ≡ (if is_neg (signed32 n) then pos 1 else negsuc 0))
unfolding div32
div32_by_zero n d e = rw e (refl, ground arith)

div32_overflow :
    (n d : ℕ)
    → (d == 0) ≡ false
    → (n == 0x8000_0000 && d == 0xffff_ffff) ≡ true
    → ((div32 n d).hi ≡ 0) × ((div32 n d).lo ≡ n)
unfolding div32
div32_overflow n d e f = rw (e, f) (refl, ground arith)

div32-IsDivision :
    (n d : ℕ) → n < 2 ^ 32 → d < 2 ^ 32 → IsDivision n d (div32 n d).hi (div32 n d).lo
div32-IsDivision n d hn hd = elim (Bool-cases (d == 0)) [
  | inl zero_divisor ↦ rw zero_divisor (div32_by_zero n d zero_divisor)
  | inr e ↦ elim (Bool-cases (n == 0x8000_0000 && d == 0xffff_ffff)) [
    | inl overflow ↦ rw (e, overflow) (div32_overflow n d e overflow)
    | inr f ↦ rw (e, f) (div32_proper n d hn hd (ground arith) (ground arith))
  ]
]

-- `div` of two words, with any operands. By 0 it leaves the dividend in HI and, in LO, 1 for a negative
-- dividend and -1 for another. -2^31 by -1, whose quotient is no word, leaves 0 and the dividend. In
-- every other case LO is the quotient cut off towards zero and HI the remainder: quotient times divisor
-- plus remainder is the dividend, the remainder is smaller than the divisor in magnitude, and it is
-- 0 or has the sign of the dividend. No register changes, and the result takes 37 cycles.
pub op_div_lem :
    {S : Type 0} (c : Cpu S) (op : ℕ)
    → rs c op < 2 ^ 32
    → rt c op < 2 ^ 32
    → let e = op_div c op in
      IsDivision (rs c op) (rt c op) e.hi e.lo
      × (e.regs ≡ c.regs)
      × (e.out_regs ≡ c.out_regs)
      × (e.muldiv_busy_cycles ≡ 37)
unfolding op_div
op_div_lem c op hn hd = (div32-IsDivision (rs c op) (rt c op) hn hd, refl, refl, refl)

to_u64-lt : (a : ℤ) → to_u64 a < 2 ^ 64
to_u64-lt (pos n) = omega arith
to_u64-lt (negsuc n) = omega arith

join : (v : ℕ) → v < 2 ^ 64 → (halves v).hi * 2 ^ 32 + (halves v).lo ≡ v
join v h = omega arith

-- The integer that a 64-bit word stands for.
abbrev pub signed64 : ℕ → ℤ
signed64 w = if ltb w (2 ^ 63) then pos w else negsuc (2 ^ 64 - w - 1)

signed64-to_u64 : (a : ℤ) → pos_part a < 2 ^ 63 → neg_part a ≤ 2 ^ 63 → signed64 (to_u64 a) ≡ a
signed64-to_u64 (pos n) h k = ground arith
signed64-to_u64 (negsuc n) h k = ground arith

mul-le : (a b : ℕ) → a ≤ 2 ^ 31 → b ≤ 2 ^ 31 → a * b ≤ 2 ^ 62
mul-le a b ha hb = grind arith

product-small :
    (a b : ℤ)
    → FitsInt32 a
    → FitsInt32 b
    → (pos_part (a *ℤ b) < 2 ^ 63) × (neg_part (a *ℤ b) ≤ 2 ^ 63)
unfolding ◌*ℤ◌
product-small (pos n) (pos k) fa fb = ground (arith, mul-le n k)
product-small (pos n) (negsuc k) fa fb = ground (arith, mul-le n (suc k))
product-small (negsuc n) (pos k) fa fb = ground (arith, mul-le (suc n) k)
product-small (negsuc n) (negsuc k) fa fb = ground (arith, mul-le (suc n) (suc k))

-- `mult` of two words leaves the whole signed product: HI and LO together stand for the
-- product of the operands' signed values.
pub mult32_lem :
    (s t : ℕ)
    → s < 2 ^ 32
    → t < 2 ^ 32
    → signed64 ((mult32 s t).hi * 2 ^ 32 + (mult32 s t).lo) ≡ signed32 s *ℤ signed32 t
unfolding mult32
mult32_lem s t hs ht =
    let small =
      product-small (signed32 s) (signed32 t) (signed32-FitsInt32 s hs) (signed32-FitsInt32 t ht) in
    ap signed64 (join (to_u64 (signed32 s *ℤ signed32 t)) (to_u64-lt _))
    ∙ signed64-to_u64 (signed32 s *ℤ signed32 t) small.0 small.1
