-- ===== src/Base/Word.antt =====
-- Machine words as native numbers: casts, shifts, masks of low bits, and single bits.
use Prim.Native.Nat.{ℕ, zero, suc, ◌+◌, ◌-◌, ◌*◌, ◌/◌, ◌%◌, ◌^◌, ◌≤◌, ◌<◌}
use mathlib.Core.Bool.{Bool}
use psx_emulator_em_c.Base.Tests.{ltb, ◌==◌, if◌then◌else◌}
use psx_emulator_em_c.Base.Int.{ℤ, pos, negsuc, pos_part, neg_part}

abbrev pub u8 : ℕ → ℕ
u8 n = n % 2 ^ 8

abbrev pub u16 : ℕ → ℕ
u16 n = n % 2 ^ 16

abbrev pub u32 : ℕ → ℕ
u32 n = n % 2 ^ 32

abbrev pub u64 : ℕ → ℕ
u64 n = n % 2 ^ 64

infixl 75 ◌<<◌ ◌>>◌
abbrev pub ◌>>◌ : ℕ → ℕ → ℕ
x >> k = x / 2 ^ k

-- `x << k` before the cast to the width of the variable that takes it.
abbrev pub ◌<<◌ : ℕ → ℕ → ℕ
x << k = x * 2 ^ k

-- `x & (2^k - 1)` and `x & ~(2^k - 1)`.
abbrev pub low_bits : ℕ → ℕ → ℕ
low_bits x k = x % 2 ^ k

abbrev pub clear_low : ℕ → ℕ → ℕ
clear_low x k = x / 2 ^ k * 2 ^ k

-- Bit `k` as a number, and as the truth of `x & (1 << k)`.
abbrev pub bit : ℕ → ℕ → ℕ
bit x k = x / 2 ^ k % 2

abbrev pub test_bit : ℕ → ℕ → Bool
test_bit x k = bit x k == 1

-- `x | (1 << k)` and `x & ~(1 << k)`.
abbrev pub set_bit : ℕ → ℕ → ℕ
set_bit x k = x + (1 - bit x k) * 2 ^ k

abbrev pub clear_bit : ℕ → ℕ → ℕ
clear_bit x k = x - bit x k * 2 ^ k

-- `a + b`, `a - b` and `~a` of `uint32_t`.
abbrev pub add32 : ℕ → ℕ → ℕ
add32 a b = (a + b) % 2 ^ 32

abbrev pub sub32 : ℕ → ℕ → ℕ
sub32 a b = (a + 2 ^ 32 - b) % 2 ^ 32

abbrev pub not32 : ℕ → ℕ
not32 a = 2 ^ 32 - 1 - a

-- The value that an `int32_t`, `int16_t` or `int8_t` with this bit pattern has.
abbrev pub signed32 : ℕ → ℤ
signed32 w = if ltb w (2 ^ 31) then pos w else negsuc (2 ^ 32 - w - 1)

abbrev pub signed16 : ℕ → ℤ
signed16 w = if ltb w (2 ^ 15) then pos w else negsuc (2 ^ 16 - w - 1)

abbrev pub signed8 : ℕ → ℤ
signed8 w = if ltb w (2 ^ 7) then pos w else negsuc (2 ^ 8 - w - 1)

-- `(uint32_t)a` and `(uint64_t)a` of a signed value.
abbrev pub to_u32 : ℤ → ℕ
to_u32 (pos n) = n % 2 ^ 32
to_u32 (negsuc n) = 2 ^ 32 - 1 - n % 2 ^ 32

abbrev pub to_u64 : ℤ → ℕ
to_u64 (pos n) = n % 2 ^ 64
to_u64 (negsuc n) = 2 ^ 64 - 1 - n % 2 ^ 64

-- The value fits an `int32_t`.
abbrev pub FitsInt32 : ℤ → Type 0
FitsInt32 a = (pos_part a < 2 ^ 31) × (neg_part a ≤ 2 ^ 31)

-- `__builtin_clz` on `k` bits: the zeroes above the highest one.
unfoldable pub leading_zeroes : ℕ → ℕ → ℕ
leading_zeroes zero x = 0
leading_zeroes (suc k) x = if test_bit x k then 0 else suc (leading_zeroes k x)
