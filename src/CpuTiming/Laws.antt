-- ===== src/CpuTiming/Laws.antt =====
-- The cost of a multiplication by the size of its operand.
use psx_emulator_em_c.Base.{
  ℕ, zero, suc, ◌+◌, ◌-◌, ◌%◌, ◌^◌, ◌<◌, ◌≤◌, ◌≡◌, ◌≢◌, arith, ltb, ap, ◌∙◌, subst, if◌then◌else◌,
  lt→ltb, le→ltb, bit_or, bit_or-bit, bit-top, leading_zeroes,
}
use native.Mathlib.Nat.{pow-suc, pow-le-pow_right, sub-zero, div-one}
use native.Mathlib.Decide.{dec_lt}
use psx_emulator_em_c.CpuTiming.{count_leading_zeroes, cpu_multiply_cycles_unsigned}

-- How many zeroes there are above the highest one, by the power of two that a number stays under.
leading_zeroes-ge : (k j x : ℕ) → j ≤ k → x < 2 ^ (k - j) → j ≤ leading_zeroes k x
unfolding leading_zeroes
leading_zeroes-ge k zero x hj h = omega arith
leading_zeroes-ge zero (suc j) x hj h = absurd (omega arith)
leading_zeroes-ge (suc k) (suc j) x hj h =
    let under : x < 2 ^ (k - j) = h' in
    let low : x < 2 ^ k =
      omega (arith, pow-le-pow_right {n = 2} (omega arith) {i = k - j} {j = k} (omega arith)) in
    ground
      (arith, leading_zeroes-ge k j x (omega arith) under, bit-top k x (omega (arith, pow-suc 2 k)))
  where
    h' : x < 2 ^ (k - j)
    h' = subst (λ n. x < 2 ^ n) (omega arith) h

leading_zeroes-lt : (k j x : ℕ) → j ≤ k → x < 2 ^ k → 2 ^ (k - j) ≤ x → leading_zeroes k x < j
unfolding leading_zeroes
leading_zeroes-lt k zero x hj hx h = absurd (omega (arith, ap (λ (n : ℕ). 2 ^ n) (sub-zero k)))
leading_zeroes-lt zero (suc j) x hj hx h = absurd (omega arith)
leading_zeroes-lt (suc k) (suc j) x hj hx h = elim (dec_lt x (2 ^ k)) [
  | yes low ↦ ground (arith, leading_zeroes-lt k j x (omega arith) low h', bit-top k x hx)
  | no high ↦ ground (arith, bit-top k x hx)
]
  where
    h' : 2 ^ (k - j) ≤ x
    h' = subst (λ n. 2 ^ n ≤ x) (omega arith) h

with_one : (x : ℕ) → bit_or x 1 ≡ x + (1 - x % 2)
with_one x = bit_or-bit 0 x ∙ rw div-one (omega arith)

count_leading_zeroes-ge : (j x : ℕ) → j ≤ 32 → x ≢ 0 → x < 2 ^ (32 - j) → j ≤ count_leading_zeroes x
unfolding count_leading_zeroes
count_leading_zeroes-ge j x hj hx h = ground (arith, leading_zeroes-ge 32 j x hj h)

count_leading_zeroes-lt :
    (j x : ℕ) → j ≤ 32 → x < 2 ^ 32 → x ≢ 0 → 2 ^ (32 - j) ≤ x → count_leading_zeroes x < j
unfolding count_leading_zeroes
count_leading_zeroes-lt j x hj hx hn h = ground (arith, leading_zeroes-lt 32 j x hj hx h)

count_leading_zeroes-le : (x : ℕ) → x ≢ 0 → x < 2 ^ 32 → count_leading_zeroes x < 32
count_leading_zeroes-le x hn h = count_leading_zeroes-lt 32 x (omega arith) h hn (omega arith)

-- The cost of an unsigned multiplication is 7, 11 or 15 cycles: its first operand, a word, is
-- below 2^10, below 2^21, or neither.
pub cpu_multiply_cycles_unsigned_lem :
    (x : ℕ)
    → x < 2 ^ 32
    → cpu_multiply_cycles_unsigned x
      ≡ (if ltb x (2 ^ 10) then 7 else if ltb x (2 ^ 21) then 11 else 15)
unfolding cpu_multiply_cycles_unsigned
cpu_multiply_cycles_unsigned_lem x h =
    let e = with_one x in
    elim (dec_lt x (2 ^ 10)) [
      | yes a ↦
          rw (lt→ltb x (2 ^ 10) a)
            (omega (arith, small (bit_or x 1) (omega arith) (omega arith) (omega arith)))
      | no a ↦ elim (dec_lt x (2 ^ 21)) [
        | yes b ↦
            rw (le→ltb x (2 ^ 10) (omega arith), lt→ltb x (2 ^ 21) b)
              (omega (
                arith,
                count_leading_zeroes-ge 11 (bit_or x 1) (omega arith) (omega arith) (omega arith),
                count_leading_zeroes-lt 22 (bit_or x 1) (omega arith) (omega arith) (omega arith)
                    (omega arith),
              ))
        | no b ↦
            rw (le→ltb x (2 ^ 10) (omega arith), le→ltb x (2 ^ 21) (omega arith))
              (omega (
                arith,
                count_leading_zeroes-lt 11 (bit_or x 1) (omega arith) (omega arith) (omega arith)
                    (omega arith),
              ))
      ]
    ]
  where
    small : (y : ℕ) → y ≢ 0 → y < 2 ^ 32 → y < 2 ^ 10 → 22 ≤ count_leading_zeroes y
    small y hn h32 hy = count_leading_zeroes-ge 22 y (omega arith) hn hy
