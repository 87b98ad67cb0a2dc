-- ===== src/Gte/Lzcr.antt =====
-- LZCR counts the leading digits that are equal.
use psx_emulator_em_c.Base.{
  ◌==◌, ℕ, zero, suc, ◌+◌, ◌-◌, ◌*◌, ◌/◌, ◌%◌, ◌^◌, ◌<◌, ◌≤◌, ◌≡◌, ◌≢◌, refl, sym, ap, subst, ◌∙◌,
  arith, Bool, true, false, if◌then◌else◌, u32, ◌<<◌, bit, test_bit, leading_zeroes, bit-low,
  bit-high, ==_false,
}
use native.Mathlib.Nat.{
  pow-suc, mul-div-mul_right, mul_comm, mul_assoc, mul-zero, mul-one, zero-mul,
  mul-lt-mul_of_pos_right, add-mul,
}
use native.Mathlib.Decide.{dec_lt}
use psx_emulator_em_c.Gte.{count_leading, lzcr}

-- A number w of k + 1 bits at the top of a word: it is w * m there, where 2^k * m is 2^31.
module _ (k m w : ℕ) (e : 2 ^ k * m ≡ 2 ^ 31) where
  positive : 0 < m
  positive = go m e
    where
      go : (m : ℕ) → 2 ^ k * m ≡ 2 ^ 31 → 0 < m
      go zero h = absurd (omega (arith, mul-zero (2 ^ k)))
      go (suc m) h = omega arith

  top : bit (w * m) 31 ≡ bit w k
  top =
      ap (λ (q : ℕ). q % 2)
        (ap (λ (d : ℕ). w * m / d) (sym e) ∙ mul-div-mul_right w (2 ^ k) positive)

  shifted_low : w < 2 ^ k → u32 ((w * m) << 1) ≡ w * (2 * m)
  shifted_low h = grind (arith, mul-lt-mul_of_pos_right h positive)

  shifted_high : 2 ^ k ≤ w → w < 2 ^ suc k → u32 ((w * m) << 1) ≡ (w - 2 ^ k) * (2 * m)
  shifted_high h h' =
      let rest = w - 2 ^ k in
      let split : w * m ≡ 2 ^ 31 + rest * m =
        ap (λ (t : ℕ). t * m) (sum h) ∙ add-mul (2 ^ k) rest m ∙ ap (λ (t : ℕ). t + rest * m) e in
      let small : rest * m < 2 ^ 31 =
        subst (λ (t : ℕ). rest * m < t) e
          (mul-lt-mul_of_pos_right {m = rest} {n = 2 ^ k} (omega (arith, pow-suc 2 k)) positive) in
      grind arith
    where
      sum : 2 ^ k ≤ w → w ≡ 2 ^ k + (w - 2 ^ k)
      sum h = omega arith

double : (k m : ℕ) → 2 ^ suc k * m ≡ 2 ^ 32 → 2 ^ k * (2 * m) ≡ 2 ^ 32
double k m e = sym (mul_assoc (2 ^ k) 2 m) ∙ ap (λ (t : ℕ). t * m) (sym (pow-suc 2 k)) ∙ e

half : (k m : ℕ) → 2 ^ suc k * m ≡ 2 ^ 32 → 2 ^ k * m ≡ 2 ^ 31
half k m e = grind (arith, double k m e, mul_assoc (2 ^ k) m 2, mul_comm m 2)

-- A loop stops at the first digit that differs, and any fuel is enough that counts all the digits.
zeroes :
    (k f m w : ℕ)
    → k ≤ f
    → 2 ^ k * m ≡ 2 ^ 32
    → w < 2 ^ k
    → w ≢ 0
    → count_leading false f (w * m) ≡ leading_zeroes k w
unfolding count_leading leading_zeroes
zeroes zero f m w hf e h ne = absurd (omega arith)
zeroes (suc k) zero m w hf e h ne = absurd (omega arith)
zeroes (suc k) (suc f) m w hf e h ne =
    let e' = half k m e in
    rw (top k m w e') (elim (dec_lt w (2 ^ k)) [
      | yes low ↦
          let rest : count_leading false f (u32 ((w * m) << 1)) ≡ leading_zeroes k w =
            ap (count_leading false f) (shifted_low k m w e' low)
            ∙ zeroes k f (2 * m) w (omega arith) (double k m e) low ne in
          rw (bit-low k w low) (ap suc rest)
      | no high ↦ rw (bit-high k w h (omega arith))
    ])

ones :
    (k f m w : ℕ)
    → k ≤ f
    → 2 ^ k * m ≡ 2 ^ 32
    → w < 2 ^ k
    → count_leading true f (w * m) ≡ leading_zeroes k (2 ^ k - 1 - w)
unfolding count_leading leading_zeroes
ones zero zero m w hf e h = refl
ones zero (suc f) m w hf e h = rw (zero_word) refl
  where
    zero_word : w * m ≡ 0
    zero_word = grind (arith, zero-mul m)
ones (suc k) zero m w hf e h = absurd (omega arith)
ones (suc k) (suc f) m w hf e h =
    let e' = half k m e in
    rw (top k m w e') (elim (dec_lt w (2 ^ k)) [
      | yes low ↦ rw (
        bit-low k w low,
        bit-high k (2 ^ suc k - 1 - w) (omega (arith, pow-suc 2 k)) (omega (arith, pow-suc 2 k)),
      )
      | no high ↦
          let c : 2 ^ suc k - 1 - w ≡ 2 ^ k - 1 - (w - 2 ^ k) = omega (arith, pow-suc 2 k) in
          let rest : count_leading true f (u32 ((w * m) << 1))
              ≡ leading_zeroes k (2 ^ suc k - 1 - w) =
            ap (count_leading true f) (shifted_high k m w e' (omega arith) h)
            ∙ ones k f (2 * m) (w - 2 ^ k) (omega arith) (double k m e) (omega (arith, pow-suc 2 k))
            ∙ ap (leading_zeroes k) (sym c) in
          rw
            (
              bit-high k w h (omega arith),
              bit-low k (2 ^ suc k - 1 - w) (omega (arith, pow-suc 2 k)),
            )
            (ap suc rest)
    ])

counted :
    (b : Bool) (f v : ℕ)
    → v < 2 ^ 32
    → 32 ≤ f
    → v ≢ 0
    → count_leading b f v ≡ leading_zeroes 32 (if b then 2 ^ 32 - 1 - v else v)
counted true f v h hf ne = ap (count_leading true f) (sym (mul-one v)) ∙ ones 32 f 1 v hf refl h
counted false f v h hf ne =
    ap (count_leading false f) (sym (mul-one v)) ∙ zeroes 32 f 1 v hf refl h ne

lzcr_nonzero : (v : ℕ) → v ≢ 0 → lzcr v ≡ count_leading (test_bit v 31) 32 v
unfolding lzcr
lzcr_nonzero v ne = rw (==_false v 0 ne)

lzcr_zero_word : lzcr 0 ≡ 32
unfolding lzcr
lzcr_zero_word = refl

lzcr_zero : lzcr 0 ≡ leading_zeroes 32 0
unfolding lzcr leading_zeroes
lzcr_zero = refl

-- LZCR is the number of leading digits of LZCS, a word, that equal its highest one: for a word
-- with the sign bit clear its leading zeroes, and else those of its complement. The loops have
-- stopped after 32 rounds: with any larger fuel f the count is the same.
pub lzcr_lem :
    (v f : ℕ)
    → v < 2 ^ 32
    → 32 ≤ f
    → (lzcr v ≡ leading_zeroes 32 (if test_bit v 31 then 2 ^ 32 - 1 - v else v))
      × (lzcr v ≡ (if v == 0 then 32 else count_leading (test_bit v 31) f v))
lzcr_lem v f h hf = elim (dec_lt 0 v) [
  | yes p ↦
      let ne : v ≢ 0 = omega arith in
      let c = counted (test_bit v 31) 32 v h (omega arith) ne in
      let c' = counted (test_bit v 31) f v h hf ne in
      (lzcr_nonzero v ne ∙ c, rw (==_false v 0 ne) (lzcr_nonzero v ne ∙ c ∙ sym c'))
  | no z ↦ zero_word v (omega arith)
]
  where
    zero_word :
        (v : ℕ)
        → v ≡ 0
        → (lzcr v ≡ leading_zeroes 32 (if test_bit v 31 then 2 ^ 32 - 1 - v else v))
          × (lzcr v ≡ (if v == 0 then 32 else count_leading (test_bit v 31) f v))
    zero_word v e = rw e (lzcr_zero, lzcr_zero_word)
