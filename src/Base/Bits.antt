-- ===== src/Base/Bits.antt =====
-- `&`, `|` and `^` of variables, which the native operations leave stuck: an equation that peels
-- the lowest digit off, and by induction the single bits, the bounds and the masks.
use Prim.Native.Nat.{ℕ, zero, suc, ◌+◌, ◌-◌, ◌*◌, ◌/◌, ◌%◌, ◌^◌, ◌≤◌, ◌<◌, min, max, differ}
use Prim.Native.Nat.{bit_and, bit_or, bit_xor, digits, bitwise}
use Prim.Native.Nat.{bit_and-bitwise, bit_or-bitwise, bit_xor-bitwise}
use mathlib.Core.Path.{◌≡◌, refl, ap, sym, ◌∙◌}
use mathlib.Core.Logic.{◌≢◌}
use psx_emulator_em_c.Base.Tests.{of_bool, ◌==◌}
use native.Mathlib.Omega.{arith}
use native.Mathlib.Nat.{pow-suc, one-le-pow, div-div-eq-div-mul, mul_comm, div-one}
use native.Mathlib.Nat.{mod-eq-sub-mul-div, mul-div-le, div-eq-sub-div, div-eq_of_lt, zero-div}
use native.Mathlib.Decide.{dec_lt}
use psx_emulator_em_c.Base.Word.{bit, set_bit}

-- Any fuel that covers the left number gives the same digits.
module _ (z : ℕ → ℕ) (f : ℕ → ℕ → ℕ) where
  digits-irrelevant : (k l a b : ℕ) → a ≤ k → a ≤ l → digits z f k a b ≡ digits z f l a b
  digits-irrelevant zero zero a b hk hl = refl
  digits-irrelevant zero (suc l) zero b hk hl = refl
  digits-irrelevant zero (suc l) (suc a) b hk hl = absurd (omega arith)
  digits-irrelevant (suc k) zero zero b hk hl = refl
  digits-irrelevant (suc k) zero (suc a) b hk hl = absurd (omega arith)
  digits-irrelevant (suc k) (suc l) zero b hk hl = refl
  digits-irrelevant (suc k) (suc l) (suc a) b hk hl =
      ap (λ (r : ℕ). r * 2 + f (suc a % 2) (b % 2))
        (digits-irrelevant k l (suc a / 2) (b / 2) (omega arith) (omega arith))

  -- The right number alone is left at the end, so its digits follow the same rule.
  peel :
      ((b : ℕ) → z b ≡ z (b / 2) * 2 + f 0 (b % 2))
      → (a b : ℕ) → bitwise z f a b ≡ bitwise z f (a / 2) (b / 2) * 2 + f (a % 2) (b % 2)
  peel last zero b = last b
  peel last (suc a) b =
      ap (λ (r : ℕ). r * 2 + f (suc a % 2) (b % 2))
        (digits-irrelevant a (suc a / 2) (suc a / 2) (b / 2) (omega arith) (omega arith))

div-pow-suc : (a k : ℕ) → a / 2 ^ suc k ≡ a / 2 / 2 ^ k
div-pow-suc a k = rw (pow-suc 2 k, mul_comm (2 ^ k) 2, ← div-div-eq-div-mul a 2 (2 ^ k))

pub bit-suc : (a k : ℕ) → bit a (suc k) ≡ bit (a / 2) k
bit-suc a k = ap (λ (q : ℕ). q % 2) (div-pow-suc a k)

-- What the three operations have in common.
module _ (op f : ℕ → ℕ → ℕ) (step : (a b : ℕ) → op a b ≡ op (a / 2) (b / 2) * 2 + f (a % 2) (b % 2))
    (digit : (x y : ℕ) → x < 2 → y < 2 → f x y < 2) (zeroes : op 0 0 ≡ 0) where
  op-lt : (k a b : ℕ) → a < 2 ^ k → b < 2 ^ k → op a b < 2 ^ k
  op-lt zero zero zero ha hb = omega (arith, zeroes)
  op-lt zero zero (suc b) ha hb = absurd (omega arith)
  op-lt zero (suc a) b ha hb = absurd (omega arith)
  op-lt (suc k) a b ha hb = omega (
    arith,
    step a b,
    pow-suc 2 k,
    op-lt k (a / 2) (b / 2) (omega (arith, pow-suc 2 k)) (omega (arith, pow-suc 2 k)),
    digit (a % 2) (b % 2) (omega arith) (omega arith),
  )

  op-half : (a b : ℕ) → op a b / 2 ≡ op (a / 2) (b / 2)
  op-half a b = omega (arith, step a b, digit (a % 2) (b % 2) (omega arith) (omega arith))

  bit-op : (k a b : ℕ) → bit (op a b) k ≡ f (bit a k) (bit b k)
  bit-op zero a b =
      rw (div-one (op a b), div-one a, div-one b)
        (omega (arith, step a b, digit (a % 2) (b % 2) (omega arith) (omega arith)))
  bit-op (suc k) a b =
      rw (bit-suc (op a b) k, bit-suc a k, bit-suc b k, op-half a b) (bit-op k (a / 2) (b / 2))

  op-shift : (k a b : ℕ) → op a b / 2 ^ k ≡ op (a / 2 ^ k) (b / 2 ^ k)
  op-shift zero a b = rw (div-one (op a b), div-one a, div-one b) refl
  op-shift (suc k) a b =
      div-pow-suc (op a b) k
      ∙ ap (λ (q : ℕ). q / 2 ^ k) (op-half a b)
      ∙ op-shift k (a / 2) (b / 2)
      ∙ ap (λ (q : ℕ). op q (b / 2 / 2 ^ k)) (sym (div-pow-suc a k))
      ∙ ap (op (a / 2 ^ suc k)) (sym (div-pow-suc b k))

and_step : (a b : ℕ) → bit_and a b ≡ bit_and (a / 2) (b / 2) * 2 + min (a % 2) (b % 2)
and_step a b = simp bit_and-bitwise (peel (λ _. 0) min (λ b. omega arith) a b)

or_step : (a b : ℕ) → bit_or a b ≡ bit_or (a / 2) (b / 2) * 2 + max (a % 2) (b % 2)
or_step a b = simp bit_or-bitwise (peel (λ b. b) max (λ b. omega arith) a b)

xor_step : (a b : ℕ) → bit_xor a b ≡ bit_xor (a / 2) (b / 2) * 2 + differ (a % 2) (b % 2)
xor_step a b = simp bit_xor-bitwise (peel (λ b. b) differ (λ b. omega arith) a b)

differ-lt : (x y : ℕ) → x < 2 → y < 2 → differ x y < 2
differ-lt zero y hx hy = hy
differ-lt (suc zero) zero hx hy = hx
differ-lt (suc zero) (suc y) hx hy = omega arith
differ-lt (suc (suc x)) y hx hy = absurd (omega arith)

-- Bit by bit.
pub bit-bit_and : (k a b : ℕ) → bit (bit_and a b) k ≡ min (bit a k) (bit b k)
bit-bit_and = bit-op bit_and min and_step (λ x y hx hy. omega arith) refl

pub bit-bit_or : (k a b : ℕ) → bit (bit_or a b) k ≡ max (bit a k) (bit b k)
bit-bit_or = bit-op bit_or max or_step (λ x y hx hy. omega arith) refl

-- Words stay words.
pub bit_and-lt : (k a b : ℕ) → a < 2 ^ k → b < 2 ^ k → bit_and a b < 2 ^ k
bit_and-lt = op-lt bit_and min and_step (λ x y hx hy. omega arith) refl

pub bit_or-lt : (k a b : ℕ) → a < 2 ^ k → b < 2 ^ k → bit_or a b < 2 ^ k
bit_or-lt = op-lt bit_or max or_step (λ x y hx hy. omega arith) refl

pub bit_xor-lt : (k a b : ℕ) → a < 2 ^ k → b < 2 ^ k → bit_xor a b < 2 ^ k
bit_xor-lt = op-lt bit_xor differ xor_step differ-lt refl

and_zero : (k a : ℕ) → a < 2 ^ k → bit_and a 0 ≡ 0
and_zero zero zero h = refl
and_zero zero (suc a) h = absurd (omega arith)
and_zero (suc k) a h = omega (arith, and_step a 0, and_zero k (a / 2) (omega (arith, pow-suc 2 k)))

lt-two-pow : (a : ℕ) → a < 2 ^ a
lt-two-pow zero = omega arith
lt-two-pow (suc a) = omega (arith, pow-suc 2 a, lt-two-pow a)

pub bit_and-zero : (a : ℕ) → bit_and a 0 ≡ 0
bit_and-zero a = and_zero a a (lt-two-pow a)

and_le : (k a b : ℕ) → a < 2 ^ k → bit_and a b ≤ a
and_le zero zero b h = omega (arith, and_step 0 b, bit_and-bitwise 0 (b / 2))
and_le zero (suc a) b h = absurd (omega arith)
and_le (suc k) a b h =
    omega (arith, and_step a b, and_le k (a / 2) (b / 2) (omega (arith, pow-suc 2 k)))

pub bit_and-le : (a b : ℕ) → bit_and a b ≤ a
bit_and-le a b = and_le a a b (lt-two-pow a)

or_zero : (k a : ℕ) → a < 2 ^ k → bit_or a 0 ≡ a
or_zero zero zero h = refl
or_zero zero (suc a) h = absurd (omega arith)
or_zero (suc k) a h = omega (arith, or_step a 0, or_zero k (a / 2) (omega (arith, pow-suc 2 k)))

pub bit_or-zero : (a : ℕ) → bit_or a 0 ≡ a
bit_or-zero a = or_zero a a (lt-two-pow a)

mod-pow-suc : (k a : ℕ) → a % 2 ^ suc k ≡ a / 2 % 2 ^ k * 2 + a % 2
mod-pow-suc k a = omega (
  arith,
  mod-eq-sub-mul-div a (2 ^ suc k),
  mod-eq-sub-mul-div (a / 2) (2 ^ k),
  ap (λ (t : ℕ). 2 ^ suc k * t) (div-pow-suc a k),
  ap (λ (t : ℕ). t * (a / 2 / 2 ^ k)) (pow-suc 2 k),
  mul-div-le (a / 2) (2 ^ k),
)

-- `x & (2^k - 1)` is the remainder by `2 ^ k`.
pub bit_and-low : (k a : ℕ) → bit_and a (2 ^ k - 1) ≡ a % 2 ^ k
bit_and-low zero a = omega (arith, bit_and-zero a)
bit_and-low (suc k) a =
    let half : (2 ^ suc k - 1) / 2 ≡ 2 ^ k - 1 = omega (arith, pow-suc 2 k, one-le-pow k 2) in
    omega (
      arith,
      and_step a (2 ^ suc k - 1),
      ap (bit_and (a / 2)) half,
      pow-suc 2 k,
      one-le-pow k 2,
      bit_and-low k (a / 2),
      mod-pow-suc k a,
    )

-- `x | (1 << k)` sets that bit.
pub bit_or-bit : (k a : ℕ) → bit_or a (2 ^ k) ≡ set_bit a k
bit_or-bit zero a = rw div-one (omega (arith, or_step a 1, bit_or-zero (a / 2)))
bit_or-bit (suc k) a =
    let half : 2 ^ suc k / 2 ≡ 2 ^ k = omega (arith, pow-suc 2 k) in
    omega (
      arith,
      or_step a (2 ^ suc k),
      ap (bit_or (a / 2)) half,
      pow-suc 2 k,
      bit_or-bit k (a / 2),
      bit-suc a k,
      ap (λ (t : ℕ). (1 - bit (a / 2) k) * t) (pow-suc 2 k),
      ap (λ (t : ℕ). (1 - t) * 2 ^ suc k) (bit-suc a k),
    )

-- The highest digit of a number of k + 1 bits tells the numbers below 2^k from the others.
pub bit-top : (k x : ℕ) → x < 2 ^ suc k → (bit x k ≡ 1 → 2 ^ k ≤ x) × (2 ^ k ≤ x → bit x k ≡ 1)
bit-top k x h = elim (dec_lt x (2 ^ k)) [
  | yes low ↦ (λ b. absurd (omega (arith, div-eq_of_lt low)), λ g. absurd (omega arith))
  | no high ↦ (
    λ b. omega arith,
    λ g. omega (
      arith,
      div-eq-sub-div {m = 2 ^ k} {n = x} (omega (arith, one-le-pow k 2)) g,
      div-eq_of_lt {n = x - 2 ^ k} {m = 2 ^ k} (omega (arith, pow-suc 2 k)),
    ),
  )
]

pub bit-low : (k x : ℕ) → x < 2 ^ k → bit x k ≡ 0
bit-low k x h = omega (arith, div-eq_of_lt h)

pub bit-high : (k x : ℕ) → x < 2 ^ suc k → 2 ^ k ≤ x → bit x k ≡ 1
bit-high k x h g = (bit-top k x h).1 g

-- The digits of 0 and of a power of two.
pub zero-bit : (k : ℕ) → bit 0 k ≡ 0
zero-bit k = ap (λ (q : ℕ). q % 2) (zero-div (2 ^ k))

power-bit : (i k : ℕ) → bit (2 ^ i) k ≡ of_bool (i == k)
power-bit zero zero = refl
power-bit zero (suc k) = bit-suc 1 k ∙ zero-bit k ∙ ground arith
power-bit (suc i) zero = ap (λ (q : ℕ). q % 2) (div-one (2 ^ suc i)) ∙ grind (arith, pow-suc 2 i)
power-bit (suc i) (suc k) =
    let half : 2 ^ suc i / 2 ≡ 2 ^ i = omega (arith, pow-suc 2 i) in
    bit-suc (2 ^ suc i) k ∙ ap (λ (x : ℕ). bit x k) half ∙ power-bit i k ∙ ground arith

pub power-bit_ne : (i k : ℕ) → i ≢ k → bit (2 ^ i) k ≡ 0
power-bit_ne i k h = power-bit i k ∙ ground arith

pub power-bit_self : (i : ℕ) → bit (2 ^ i) i ≡ 1
power-bit_self i = power-bit i i ∙ ground arith

-- Setting one digit leaves the others.
pub bit-set_bit_ne : (i k a : ℕ) → i ≢ k → bit (set_bit a i) k ≡ bit a k
bit-set_bit_ne i k a h =
    ap (λ (x : ℕ). bit x k) (sym (bit_or-bit i a))
    ∙ omega (arith, bit-bit_or k a (2 ^ i), power-bit_ne i k h)

-- Shifts of bitwise operations.
pub bit_or-shift : (k a b : ℕ) → bit_or a b / 2 ^ k ≡ bit_or (a / 2 ^ k) (b / 2 ^ k)
bit_or-shift = op-shift bit_or max or_step (λ x y hx hy. omega arith) refl

pub bit_and-shift : (k a b : ℕ) → bit_and a b / 2 ^ k ≡ bit_and (a / 2 ^ k) (b / 2 ^ k)
bit_and-shift = op-shift bit_and min and_step (λ x y hx hy. omega arith) refl

-- A number and its complement have no digit in common.
pub bit_and-complement : (k a : ℕ) → a < 2 ^ k → bit_and a (2 ^ k - 1 - a) ≡ 0
bit_and-complement zero zero h = refl
bit_and-complement zero (suc a) h = absurd (omega arith)
bit_and-complement (suc k) a h =
    let half : (2 ^ suc k - 1 - a) / 2 ≡ 2 ^ k - 1 - a / 2 = omega (arith, pow-suc 2 k) in
    omega (
      arith,
      and_step a (2 ^ suc k - 1 - a),
      ap (bit_and (a / 2)) half,
      pow-suc 2 k,
      bit_and-complement k (a / 2) (omega (arith, pow-suc 2 k)),
    )
