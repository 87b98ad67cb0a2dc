-- ===== src/Gte.antt =====
-- gte.h and gte.c: the register file of the geometry coprocessor as the CPU reaches it.
pub mod Laws
pub mod Lzcr
pub mod Fields
pub mod Saturate
pub mod Divide
pub mod DivideLaws
pub mod Transform
pub mod Commands
pub mod Colour
pub mod Execute
pub mod Words
pub mod Flag
pub mod Keeps
pub mod TransformKeeps
pub mod CommandKeeps
use psx_emulator_em_c.Base.{
  ℕ, zero, suc, ◌+◌, ◌-◌, ◌*◌, ◌/◌, ◌%◌, ◌^◌, Bool, true, false, not, ◌&&◌, ◌||◌, List, ltb, leb,
  ◌==◌, ◌!=◌, if◌then◌else◌, get_or, set, replicate, u32, ◌<<◌, ◌>>◌, low_bits, bit, test_bit,
  set_bit, bit_and, ℤ, pos, negsuc, signed16, to_u32, shift_right, pos_part, neg_part, ltb_ℤ, u16,
}

-- `Gte`: the data registers and the control registers, 32 words each.
pub record Gte : Type 0 where
  pub dr : List ℕ
  pub cr : List ℕ

abbrev pub dr_at : Gte → ℕ → ℕ
dr_at g i = get_or g.dr i 0

abbrev pub cr_at : Gte → ℕ → ℕ
cr_at g i = get_or g.cr i 0

abbrev pub put_dr : Gte → ℕ → ℕ → Gte
put_dr g i v = record g { dr = set g.dr i v }

abbrev pub put_cr : Gte → ℕ → ℕ → Gte
put_cr g i v = record g { cr = set g.cr i v }

unfoldable pub gte_init : Gte
gte_init = record { dr = replicate 32 0; cr = replicate 32 0 }

-- `(uint32_t)(int32_t)(int16_t)(w & 0xFFFF)`.
abbrev pub sign_extend16 : ℕ → ℕ
sign_extend16 w = to_u32 (signed16 (low_bits w 16))

-- `clamp(IRn >> 7, 0, 0x1F)` of the register `w` that holds IRn.
unfoldable pub five_bits : ℕ → ℕ
five_bits w =
    let v = shift_right (signed16 (low_bits w 16)) 7 in
    if ltb_ℤ v (pos 0) then 0 else if ltb_ℤ (pos 31) v then 31 else pos_part v

-- The loops of LZCR: shift out the top bit while it is `ones`, and count. The fuel is the width.
unfoldable pub count_leading : Bool → ℕ → ℕ → ℕ
count_leading ones zero v = 0
count_leading ones (suc fuel) v =
    let rest = suc (count_leading ones fuel (u32 (v << 1))) in
    if ones then (if test_bit v 31 then rest else 0) else if test_bit v 31 then 0 else rest

unfoldable pub lzcr : ℕ → ℕ
unfolding count_leading
lzcr v = if v == 0 then 32 else count_leading (test_bit v 31) 32 v

-- The groups of `case` labels of `gte_read_data`.
abbrev pub is_signed_reg : ℕ → Bool
is_signed_reg reg =
    reg == 1 || reg == 3 || reg == 5 || reg == 8 || reg == 9 || reg == 10 || reg == 11

abbrev pub is_unsigned_reg : ℕ → Bool
is_unsigned_reg reg = reg == 7 || reg == 16 || reg == 17 || reg == 18 || reg == 19

-- The fields of ORGB take different bits, so the sum is the source's `|`.
unfoldable pub gte_read_data : Gte → ℕ → ℕ
unfolding five_bits lzcr
gte_read_data g reg =
    if is_signed_reg reg
    then sign_extend16 (dr_at g reg)
    else if is_unsigned_reg reg
    then low_bits (dr_at g reg) 16
    else if reg == 15
    then dr_at g 14
    else if reg == 28 || reg == 29
    then five_bits (dr_at g 9) + five_bits (dr_at g 10) << 5 + five_bits (dr_at g 11) << 10
    else if reg == 31
    then lzcr (dr_at g 30)
    else dr_at g reg

-- The channel of IRGB from bit `k`, scaled by 0x80. It fits an `int16_t`.
abbrev pub channel_of : ℕ → ℕ → ℕ
channel_of val k = low_bits (val >> k) 5 << 7

unfoldable pub gte_write_data : Gte → ℕ → ℕ → Gte
gte_write_data g reg val =
    if reg == 15
    then put_dr (put_dr (put_dr (put_dr g 12 (dr_at g 13)) 13 (dr_at g 14)) 14 val) 15 val
    else if reg == 28
    then put_dr
        (put_dr (put_dr (put_dr g 9 (channel_of val 0)) 10 (channel_of val 5)) 11
          (channel_of val 10))
        28 val
    else if reg == 29
    then g
    else if reg == 30
    then put_dr g 30 val
    else if reg == 31
    then g
    else put_dr g reg val

unfoldable pub gte_read_ctrl : Gte → ℕ → ℕ
gte_read_ctrl g reg =
    if reg == 31
    then (let f = cr_at g 31 in if bit_and f 0x7f87_e000 != 0 then set_bit f 31 else f)
    else if reg == 4 || reg == 12 || reg == 20
    then sign_extend16 (cr_at g reg)
    else cr_at g reg

unfoldable pub gte_write_ctrl : Gte → ℕ → ℕ → Gte
gte_write_ctrl g reg val =
    if reg == 31 then put_cr g 31 (bit_and val 0x7fff_f000) else put_cr g reg val

unfoldable pub gte_load : Gte → ℕ → ℕ → Gte
unfolding gte_write_data
gte_load g reg val = gte_write_data g reg val

unfoldable pub gte_store : Gte → ℕ → ℕ
unfolding gte_read_data
gte_store g reg = gte_read_data g reg
