-- ===== src/Gte/Saturate.antt =====
-- gte.c: the accumulators, the saturated registers and the queues, with the bits of FLAG that
-- they set.
use psx_emulator_em_c.Base.{
  ℕ, ◌+◌, ◌-◌, ◌%◌, ◌^◌, Bool, ◌||◌, ltb, ◌==◌, if◌then◌else◌, u8, u64, ◌<<◌, ◌>>◌, set_bit,
  bit_xor, ℤ, pos, negsuc, ltb_ℤ, to_u32, to_u64, shift_right,
}
use psx_emulator_em_c.Gte.{Gte, dr_at, cr_at, put_dr, put_cr}
use psx_emulator_em_c.Gte.Fields.{int32, int16, to_u16}

-- The positions of the `F_*` bits of FLAG.
abbrev pub f_mac_pos : ℕ → ℕ
f_mac_pos n = if n == 1 then 30 else if n == 2 then 29 else 28

abbrev pub f_mac_neg : ℕ → ℕ
f_mac_neg n = if n == 1 then 27 else if n == 2 then 26 else 25

abbrev pub f_ir_sat : ℕ → ℕ
f_ir_sat n = if n == 0 then 12 else if n == 1 then 24 else if n == 2 then 23 else 22

abbrev pub f_colour : ℕ → ℕ
f_colour ch = if ch == 0 then 21 else if ch == 1 then 20 else 19

abbrev pub f_sz2_ovf : ℕ
f_sz2_ovf = 18

abbrev pub f_div_ovf : ℕ
f_div_ovf = 17

abbrev pub f_mac0_pos : ℕ
f_mac0_pos = 16

abbrev pub f_mac0_neg : ℕ
f_mac0_neg = 15

abbrev pub f_sx2_sat : ℕ
f_sx2_sat = 14

abbrev pub f_sy2_sat : ℕ
f_sy2_sat = 13

abbrev pub f_ir0_sat : ℕ
f_ir0_sat = 12

-- `if (raised) gte->cr[31] |= 1u << k`.
unfoldable pub flag_if : Bool → ℕ → Gte → Gte
flag_if raised k g = if raised then put_cr g 31 (set_bit (cr_at g 31) k) else g

abbrev pub outside : ℤ → ℤ → ℤ → Bool
outside v lo hi = ltb_ℤ v lo || ltb_ℤ hi v

unfoldable pub clamp : ℤ → ℤ → ℤ → ℤ
clamp v lo hi = if ltb_ℤ v lo then lo else if ltb_ℤ hi v then hi else v

-- `(int64_t)w` of a `uint64_t`.
abbrev pub signed64 : ℕ → ℤ
signed64 w = if ltb w (2 ^ 63) then pos w else negsuc (2 ^ 64 - w - 1)

unfoldable pub sign_extend_bits : ℕ → ℕ → ℤ
sign_extend_bits v bits =
    let mask = 2 ^ (bits - 1) in signed64 (u64 (bit_xor v mask + 2 ^ 64 - mask))

-- The value that a call returns, and the state that it leaves.
unfoldable pub mac123_result : Gte → ℕ → ℤ → ℤ × Gte
mac123_result g n v =
    let g1 = flag_if (ltb_ℤ (pos (2 ^ 43 - 1)) v) (f_mac_pos n) g in
    let g2 = flag_if (ltb_ℤ v (negsuc (2 ^ 43 - 1))) (f_mac_neg n) g1 in
    (sign_extend_bits (to_u64 v % 2 ^ 44) 44, g2)

unfoldable pub set_mac : Gte → ℕ → ℤ → Bool → ℤ × Gte
set_mac g n v sf =
    let g1 = (mac123_result g n v).1 in
    let r = int32 (if sf then shift_right v 12 else v) in (r, put_dr g1 (24 + n) (to_u32 r))

unfoldable pub check_mac0_overflow : Gte → ℤ → Gte
check_mac0_overflow g v =
    flag_if (ltb_ℤ v (negsuc 0x7fff_ffff)) f_mac0_neg
      (flag_if (ltb_ℤ (pos 0x7fff_ffff) v) f_mac0_pos g)

-- No caller uses the values that `set_mac0`, `set_ir` and `set_ir0` return.
unfoldable pub set_mac0 : Gte → ℤ → Gte
set_mac0 g v =
    let g1 = flag_if (ltb_ℤ (pos 0x7fff_ffff) v) f_mac0_pos g in
    let g2 = flag_if (ltb_ℤ v (negsuc 0x7fff_ffff)) f_mac0_neg g1 in put_dr g2 24 (to_u32 (int32 v))

-- The lower bound that `lm` chooses.
abbrev pub ir_min : Bool → ℤ
ir_min lm = if lm then pos 0 else negsuc 0x7fff

unfoldable pub set_ir : Gte → ℕ → ℤ → Bool → Gte
set_ir g n v lm =
    let lo = ir_min lm in
    let hi = pos 0x7fff in
    let g1 = flag_if (outside v lo hi) (f_ir_sat n) g in
    put_dr g1 (8 + n) (to_u16 (int16 (clamp v lo hi)))

unfoldable pub set_ir0 : Gte → ℤ → Gte
set_ir0 g v =
    put_dr (flag_if (outside v (pos 0) (pos 0x1000)) f_ir0_sat g) 8
      (to_u16 (int16 (clamp v (pos 0) (pos 0x1000))))

unfoldable pub sat_rgb : Gte → ℕ → ℤ → ℕ × Gte
sat_rgb g ch v =
    (u8 (to_u32 (clamp v (pos 0) (pos 255))), flag_if (outside v (pos 0) (pos 255)) (f_colour ch) g)

-- The two halves of SXY2 take different bits, so the sum is the source's `|`.
unfoldable pub push_sxy : Gte → ℤ → ℤ → Gte
push_sxy g x y =
    let g1 = put_dr g 12 (dr_at g 13) in
    let g2 = put_dr g1 13 (dr_at g1 14) in
    let g3 = flag_if (outside x (negsuc 0x3ff) (pos 0x3ff)) f_sx2_sat g2 in
    let g4 = flag_if (outside y (negsuc 0x3ff) (pos 0x3ff)) f_sy2_sat g3 in
    let csx = clamp x (negsuc 0x3ff) (pos 0x3ff) in
    let csy = clamp y (negsuc 0x3ff) (pos 0x3ff) in
    let g5 = put_dr g4 14 (to_u16 (int16 csx) + to_u16 (int16 csy) << 16) in
    put_dr g5 15 (dr_at g5 14)

-- The two tests on the value that is stored, one after the other, as `push_sz`, `cmd_avsz3` and
-- `cmd_avsz4` make them; the value is stored in register `i`.
unfoldable pub put_depth : Gte → ℕ → ℤ → Gte
put_depth g i v =
    let g1 = flag_if (ltb_ℤ v (pos 0)) f_sz2_ovf g in
    let v1 = if ltb_ℤ v (pos 0) then pos 0 else v in
    let g2 = flag_if (ltb_ℤ (pos 0xffff) v1) f_sz2_ovf g1 in
    let v2 = if ltb_ℤ (pos 0xffff) v1 then pos 0xffff else v1 in put_dr g2 i (to_u16 v2)

unfoldable pub push_sz : Gte → ℤ → Gte
push_sz g v =
    let g1 = put_dr g 16 (dr_at g 17) in
    let g2 = put_dr g1 17 (dr_at g1 18) in let g3 = put_dr g2 18 (dr_at g2 19) in put_depth g3 19 v

-- The four bytes take different bits, so the sum is the source's `|`.
unfoldable pub push_rgb : Gte → ℤ → ℤ → ℤ → Gte
push_rgb g r gr b =
    let g1 = put_dr g 20 (dr_at g 21) in
    let g2 = put_dr g1 21 (dr_at g1 22) in
    let code = u8 (dr_at g2 6 >> 24) in
    let sr = sat_rgb g2 0 r in
    let sg = sat_rgb sr.1 1 gr in
    let sb = sat_rgb sg.1 2 b in put_dr sb.1 22 (sr.0 + sg.0 << 8 + sb.0 << 16 + code << 24)
