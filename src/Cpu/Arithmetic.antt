-- ===== src/Cpu/Arithmetic.antt =====
-- cpu.c: the word arithmetic inside the opcode handlers, without the state.
use psx_emulator_em_c.Base.{
  ℕ, ◌+◌, ◌*◌, ◌/◌, ◌%◌, ◌^◌, Bool, ◌&&◌, Option, none, some, ltb, leb, ◌==◌, if◌then◌else◌, ℤ,
  ◌+ℤ◌, ◌-ℤ◌, ◌*ℤ◌, ◌/ℤ◌, ◌%ℤ◌, pos_part, neg_part, ltb_ℤ, is_neg, shift_right, signed32, to_u32,
  to_u64, u32, ◌<<◌, ◌>>◌, low_bits, clear_low,
}

abbrev pub fits_int32 : ℤ → Bool
fits_int32 r = ltb (pos_part r) (2 ^ 31) && leb (neg_part r) (2 ^ 31)

-- `__builtin_add_overflow` and `__builtin_sub_overflow` on `int32_t`: `none` is the overflow.
unfoldable pub add_overflow : ℕ → ℕ → Option ℕ
unfolding ◌+ℤ◌
add_overflow s t =
    let r = signed32 s +ℤ signed32 t in if fits_int32 r then some (to_u32 r) else none

unfoldable pub sub_overflow : ℕ → ℕ → Option ℕ
unfolding ◌-ℤ◌
sub_overflow s t =
    let r = signed32 s -ℤ signed32 t in if fits_int32 r then some (to_u32 r) else none

-- `(int32_t)s < (int32_t)t`.
abbrev pub less_signed : ℕ → ℕ → Bool
less_signed s t = ltb_ℤ (signed32 s) (signed32 t)

-- `(uint32_t)((int32_t)w >> k)`.
abbrev pub sra32 : ℕ → ℕ → ℕ
sra32 w k = to_u32 (shift_right (signed32 w) k)

pub record HiLo : Type 0 where
  pub hi : ℕ
  pub lo : ℕ

-- The branches of `op_div`.
unfoldable pub div32 : ℕ → ℕ → HiLo
div32 n d =
    if d == 0
    then record { hi = n; lo = if is_neg (signed32 n) then 1 else 0xffff_ffff }
    else if n == 0x8000_0000 && d == 0xffff_ffff
    then record { hi = 0; lo = 0x8000_0000 }
    else record { hi = to_u32 (signed32 n %ℤ signed32 d); lo = to_u32 (signed32 n /ℤ signed32 d) }

-- The branches of `op_divu`.
unfoldable pub divu32 : ℕ → ℕ → HiLo
divu32 n d =
    if d == 0 then record { hi = n; lo = 0xffff_ffff } else record { hi = n % d; lo = n / d }

abbrev pub halves : ℕ → HiLo
halves v = record { hi = u32 (v >> 32); lo = u32 v }

unfoldable pub mult32 : ℕ → ℕ → HiLo
mult32 s t = halves (to_u64 (signed32 s *ℤ signed32 t))

unfoldable pub multu32 : ℕ → ℕ → HiLo
multu32 s t = halves (s * t)

-- The `switch (addr & 3)` of `op_lwl`, `op_lwr`, `op_swl` and `op_swr`. The operands of each `|`
-- take different bits, so the sum is that.
unfoldable pub lwl_merge : ℕ → ℕ → ℕ → ℕ
lwl_merge lane cur word =
    if lane == 0
    then low_bits cur 24 + u32 (word << 24)
    else if lane == 1
    then low_bits cur 16 + u32 (word << 16)
    else if lane == 2
    then low_bits cur 8 + u32 (word << 8)
    else word

unfoldable pub lwr_merge : ℕ → ℕ → ℕ → ℕ
lwr_merge lane cur word =
    if lane == 0
    then word
    else if lane == 1
    then clear_low cur 24 + word >> 8
    else if lane == 2
    then clear_low cur 16 + word >> 16
    else clear_low cur 8 + word >> 24

unfoldable pub swl_merge : ℕ → ℕ → ℕ → ℕ
swl_merge lane mem v =
    if lane == 0
    then clear_low mem 8 + v >> 24
    else if lane == 1
    then clear_low mem 16 + v >> 16
    else if lane == 2
    then clear_low mem 24 + v >> 8
    else v

unfoldable pub swr_merge : ℕ → ℕ → ℕ → ℕ
swr_merge lane mem v =
    if lane == 0
    then v
    else if lane == 1
    then low_bits mem 8 + u32 (v << 8)
    else if lane == 2
    then low_bits mem 16 + u32 (v << 16)
    else low_bits mem 24 + u32 (v << 24)
