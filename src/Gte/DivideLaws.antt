-- ===== src/Gte/DivideLaws.antt =====
-- gte.c: what `gte_divide` computes.
use psx_emulator_em_c.Base.{
  ℕ, zero, suc, ◌+◌, ◌*◌, ◌^◌, ◌<◌, ◌≤◌, ◌≡◌, refl, sym, ap, subst, ◌∙◌, arith, Bool, true, false,
  ◌&&◌, ltb, leb, if◌then◌else◌, Bool-cases, inl, inr, u32, ◌<<◌, ◌>>◌, shift_right, ◌+ℤ◌, ◌*ℤ◌,
  ◌-ℤ◌,
}
use native.Mathlib.Nat.{pow-suc, mul_assoc, mul_comm, mul-le-mul_left}
use native.Mathlib.Decide.{dec_lt}
use psx_emulator_em_c.Gte.Divide.{Scaled, normalise, reciprocal, gte_divide}

-- The loop of `gte_divide` has shifted both numbers by the same amount, and the top bit of the
-- divisor's half is set.
record IsScaled (lhs rhs : ℕ) (s : Scaled) : Type 0 where
  amount : ℕ
  lhs_scaled : s.lhs ≡ lhs * 2 ^ amount
  rhs_scaled : s.rhs ≡ rhs * 2 ^ amount
  top_bit : 0x8000 ≤ s.rhs
  half : s.rhs < 0x1_0000

shift_once : (lhs rhs : ℕ) {s : Scaled} → IsScaled (lhs * 2) (rhs * 2) s → IsScaled lhs rhs s
shift_once lhs rhs {s} h = record {
  amount = suc h.amount;
  lhs_scaled = h.lhs_scaled ∙ more lhs h.amount;
  rhs_scaled = h.rhs_scaled ∙ more rhs h.amount;
  top_bit = h.top_bit;
  half = h.half;
}
  where
    more : (a k : ℕ) → a * 2 * 2 ^ k ≡ a * 2 ^ suc k
    more a k =
        mul_assoc a 2 (2 ^ k) ∙ ap (λ (t : ℕ). a * t) (sym (pow-suc 2 k ∙ mul_comm (2 ^ k) 2))

normalise-IsScaled :
    (fuel lhs rhs : ℕ)
    → rhs < 0x1_0000
    → lhs < 2 * rhs
    → 0x8000 ≤ rhs * 2 ^ fuel
    → IsScaled lhs rhs (normalise fuel lhs rhs)
unfolding normalise
normalise-IsScaled zero lhs rhs hr hl hf = record {
  amount = 0;
  lhs_scaled = omega arith;
  rhs_scaled = omega arith;
  top_bit = omega arith;
  half = hr;
}
normalise-IsScaled (suc fuel) lhs rhs hr hl hf = elim (Bool-cases (ltb rhs 0x8000)) [
  | inl low ↦
      let small : rhs < 0x8000 = ground arith in
      let el : u32 (lhs << 1) ≡ lhs * 2 = omega arith in
      let er : u32 (rhs << 1) ≡ rhs * 2 = omega arith in
      let enough : 0x8000 ≤ rhs * 2 * 2 ^ fuel = omega (
        arith,
        pow-suc 2 fuel,
        mul_assoc rhs 2 (2 ^ fuel),
        mul_comm (2 ^ fuel) 2,
        ap (λ (t : ℕ). rhs * t) (pow-suc 2 fuel ∙ mul_comm (2 ^ fuel) 2),
      ) in
      rw (low, el, er)
        (shift_once lhs rhs
          (normalise-IsScaled fuel (lhs * 2) (rhs * 2) (omega arith) (omega arith) enough))
  | inr high ↦ rw high (record {
    amount = 0;
    lhs_scaled = omega arith;
    rhs_scaled = omega arith;
    top_bit = ground arith;
    half = hr;
  })
]

-- Any fuel that is enough gives the same numbers.
normalise_more :
    (m f lhs rhs : ℕ)
    → rhs < 0x1_0000
    → 0x8000 ≤ rhs * 2 ^ m
    → m ≤ f
    → normalise f lhs rhs ≡ normalise m lhs rhs
unfolding normalise
normalise_more zero zero lhs rhs hr hm hf = refl
normalise_more zero (suc f) lhs rhs hr hm hf =
    let p : ltb rhs 0x8000 ≡ false = ground arith in rw p refl
normalise_more (suc m) zero lhs rhs hr hm hf = absurd (omega arith)
normalise_more (suc m) (suc f) lhs rhs hr hm hf = elim (Bool-cases (ltb rhs 0x8000)) [
  | inl low ↦
      let small : rhs < 0x8000 = ground arith in
      let er : u32 (rhs << 1) ≡ rhs * 2 = omega arith in
      let enough : 0x8000 ≤ rhs * 2 * 2 ^ m = omega (
        arith,
        mul_assoc rhs 2 (2 ^ m),
        ap (λ (t : ℕ). rhs * t) (pow-suc 2 m ∙ mul_comm (2 ^ m) 2),
      ) in
      rw (low, er)
        (normalise_more m f (u32 (lhs << 1)) (rhs * 2) (omega arith) enough (omega arith))
  | inr high ↦ rw high refl
]

-- The reciprocal of every normalised divisor, by computing all of them.
abbrev near : ℕ → Bool
near d = let p = reciprocal d * d in leb p (2 ^ 32 + 63_032) && leb (2 ^ 32) (p + 85_525)

abbrev all_from : (ℕ → Bool) → ℕ → ℕ → Bool
all_from p zero d = true
all_from p (suc n) d = p d && all_from p n (suc d)

all_from-at : (p : ℕ → Bool) (n d k : ℕ) → all_from p n d ≡ true → d ≤ k → k < d + n → p k ≡ true
all_from-at p zero d k h a b = absurd (omega arith)
all_from-at p (suc n) d k h a b = elim (dec_lt d k) [
  | yes less ↦ all_from-at p n (suc d) k (both (p d) h).1 less (omega arith)
  | no more ↦ let e : d ≡ k = omega arith in subst (λ (i : ℕ). p i ≡ true) e (both (p d) h).0
]
  where
    both : (x : Bool) {y : Bool} → (x && y) ≡ true → (x ≡ true) × (y ≡ true)
    both true h = (refl, h)
    both false h = absurd (ground arith)

every_divisor : all_from near 0x8000 0x8000 ≡ true
unfolding reciprocal shift_right ◌+ℤ◌ ◌*ℤ◌ ◌-ℤ◌
every_divisor = refl

reciprocal_near :
    (d : ℕ)
    → 0x8000 ≤ d
    → d < 0x1_0000
    → (reciprocal d * d ≤ 2 ^ 32 + 63_032) × (2 ^ 32 ≤ reciprocal d * d + 85_525)
reciprocal_near d a b = let n = all_from-at near 0x8000 0x8000 d every_divisor a b in ground arith

-- The product of the shifted dividend and the reciprocal, over the divisor: the amount of the
-- shift drops out.
exact : (h sz p k l r : ℕ) → l ≡ h * 2 ^ k → r ≡ sz * 2 ^ k → l * p * sz ≡ h * (p * r)
exact h sz p k l r el er = rw (el, er) (omega arith)

module _ (h sz : ℕ) (h_half : h < 2 ^ 16) (sz_half : sz < 2 ^ 16) where
  positive : h < 2 * sz → 0x8000 ≤ sz * 2 ^ 15
  positive lt = omega arith

  -- A quotient q by 2^16, to the nearest, of a number a whose product with sz is h * m, where m is
  -- about 2^32.
  rounded :
      (a m q : ℕ)
      → h < 2 * sz
      → a * sz ≡ h * m
      → m ≤ 2 ^ 32 + 63_032
      → 2 ^ 32 ≤ m + 85_525
      → q * 2 ^ 16 ≤ a + 0x8000
      → a + 0x8000 ≤ q * 2 ^ 16 + 0xffff
      → (q * sz ≤ h * 2 ^ 16 + 3 * sz) × (h * 2 ^ 16 ≤ q * sz + 4 * sz)
  rounded a m q lt e above below floor ceil =
      let up = mul-le-mul_left {m = m} {n = 2 ^ 32 + 63_032} h above in
      let down = mul-le-mul_left {m = 2 ^ 32} {n = m + 85_525} h below in
      let f = mul-le-mul_left {m = q * 2 ^ 16} {n = a + 0x8000} sz floor in
      let c = mul-le-mul_left {m = a + 0x8000} {n = q * 2 ^ 16 + 0xffff} sz ceil in
      (omega arith, omega arith)

  result_near :
      (lt : h < 2 * sz) (s : Scaled)
      → IsScaled h sz s
      → let q = (s.lhs * reciprocal s.rhs + 0x8000) >> 16 in
        (q * sz ≤ h * 2 ^ 16 + 3 * sz) × (h * 2 ^ 16 ≤ q * sz + 4 * sz)
  result_near lt s v =
      let p = reciprocal s.rhs in
      let e = exact h sz p v.amount s.lhs s.rhs v.lhs_scaled v.rhs_scaled in
      let n = reciprocal_near s.rhs v.top_bit v.half in
      rounded (s.lhs * p) (p * s.rhs) ((s.lhs * p + 0x8000) >> 16) lt e n.0 n.1 (omega arith)
        (omega arith)

  -- `q` is at most 3 units of 2 ^ -16 above the quotient of h by sz, and at most 4 below.
  abbrev IsNear : ℕ → Type 0
  IsNear q = (q * sz ≤ h * 2 ^ 16 + 3 * sz) × (h * 2 ^ 16 ≤ q * sz + 4 * sz)

  gte_divide-IsNear : h < 2 * sz → IsNear (gte_divide h sz)
  unfolding gte_divide
  gte_divide-IsNear lt =
      let s = normalise 15 h sz in
      let v = normalise-IsScaled 15 h sz sz_half lt (positive lt) in
      let q = (s.lhs * reciprocal s.rhs + 0x8000) >> 16 in
      let n = result_near lt s v in
      let no : leb (sz * 2) h ≡ false = ground arith in
      rw no (elim (Bool-cases (ltb 0x1_ffff q)) [
        | inl cut ↦
            let large : 0x1_ffff < q = ground arith in
            let f = mul-le-mul_left {m = 0x1_ffff} {n = q} sz (omega arith) in
            rw cut (omega arith, omega arith)
        | inr fits ↦ rw fits n
      ])

  gte_divide_top :
      (gte_divide h sz ≤ 0x1_ffff) × (leb (sz * 2) h ≡ true → gte_divide h sz ≡ 0x1_ffff)
  unfolding gte_divide
  gte_divide_top = (ground arith, λ e. rw e refl)

-- For halves h and sz the quotient of the perspective transform is at most 0x1FFFF. It is that
-- where 2 * sz is at most h, for sz = 0 in particular, and else it is, in units of 2 ^ -16, at
-- most 3 above the exact quotient of h by sz and at most 4 below.
pub gte_divide_lem :
    (h sz : ℕ)
    → h < 2 ^ 16
    → sz < 2 ^ 16
    → (gte_divide h sz ≤ 0x1_ffff)
      × (if leb (sz * 2) h
          then gte_divide h sz ≡ 0x1_ffff
          else (gte_divide h sz * sz ≤ h * 2 ^ 16 + 3 * sz)
            × (h * 2 ^ 16 ≤ gte_divide h sz * sz + 4 * sz))
gte_divide_lem h sz hh hs = elim (Bool-cases (leb (sz * 2) h)) [
  | inl over ↦ rw over ((gte_divide_top h sz hh hs).0, (gte_divide_top h sz hh hs).1 over)
  | inr fits ↦
      let lt : h < 2 * sz = ground arith in
      rw fits ((gte_divide_top h sz hh hs).0, gte_divide-IsNear h sz hh hs lt)
]

-- The loop that normalises the divisor ends: for a half sz and a dividend h below 2 * sz, 15
-- rounds leave a divisor of 16 digits, the highest of which is 1, that is sz shifted to the left,
-- and any larger number of rounds leaves the same two numbers.
pub normalise_ends :
    (h sz fuel : ℕ)
    → sz < 2 ^ 16
    → h < 2 * sz
    → 15 ≤ fuel
    → (0x8000 ≤ (normalise 15 h sz).rhs)
      × ((normalise 15 h sz).rhs < 0x1_0000)
      × ((k : ℕ) × ((normalise 15 h sz).rhs ≡ sz * 2 ^ k))
      × (normalise fuel h sz ≡ normalise 15 h sz)
normalise_ends h sz fuel hs lt hf =
    let enough : 0x8000 ≤ sz * 2 ^ 15 = omega arith in
    let v = normalise-IsScaled 15 h sz hs lt enough in
    (v.top_bit, v.half, (v.amount, v.rhs_scaled), normalise_more 15 fuel h sz hs enough hf)
