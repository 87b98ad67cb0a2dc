-- ===== src/Gte/Commands.antt =====
-- gte.c: the commands on coordinates.
use psx_emulator_em_c.Base.{
  ℕ, ◌+◌, Bool, true, false, leb, ◌==◌, if◌then◌else◌, ◌>>◌, low_bits, test_bit, pos, ◌+ℤ◌, ◌-ℤ◌,
  ◌*ℤ◌, shift_right,
}
use psx_emulator_em_c.Gte.{Gte, put_cr}
use psx_emulator_em_c.Gte.Fields.{
  Vector, zero_vector, int32, vertex, sx, sy, sz, ir, ir_vector, MatFn, rt, mat_lm, mat_lcm,
  mat_buggy, translation, background, far_colour, zsf3, zsf4,
}
use psx_emulator_em_c.Gte.Saturate.{set_mac0, put_depth}
use psx_emulator_em_c.Gte.Transform.{mat_mul_vec, mat_mul_vec_buggy, set_mac_ir, gte_rtps}

-- The bits `sf` and `lm` of a command.
abbrev pub sf_of : ℕ → Bool
sf_of cmd = test_bit cmd 19

abbrev pub lm_of : ℕ → Bool
lm_of cmd = test_bit cmd 10

-- `gte->cr[31] = 0`, with which every command begins.
abbrev pub clear_flag : Gte → Gte
clear_flag g = put_cr g 31 0

unfoldable pub cmd_rtps : Gte → ℕ → Gte
cmd_rtps g cmd = gte_rtps (clear_flag g) 0 (sf_of cmd) (lm_of cmd) true

unfoldable pub cmd_rtpt : Gte → ℕ → Gte
cmd_rtpt g cmd =
    let sf = sf_of cmd in
    let lm = lm_of cmd in
    let g1 = gte_rtps (clear_flag g) 0 sf lm false in
    let g2 = gte_rtps g1 1 sf lm false in gte_rtps g2 2 sf lm true

unfoldable pub cmd_nclip : Gte → ℕ → Gte
cmd_nclip g cmd =
    let g1 = clear_flag g in
    set_mac0 g1 (
      sx g1 0 *ℤ (sy g1 1 -ℤ sy g1 2)
      +ℤ sx g1 1 *ℤ (sy g1 2 -ℤ sy g1 0)
      +ℤ sx g1 2 *ℤ (sy g1 0 -ℤ sy g1 1))

unfoldable pub cmd_avsz3 : Gte → ℕ → Gte
cmd_avsz3 g cmd =
    let g1 = clear_flag g in
    let v = zsf3 g1 *ℤ pos (sz g1 1 + sz g1 2 + sz g1 3) in
    put_depth (set_mac0 g1 v) 7 (int32 (shift_right v 12))

unfoldable pub cmd_avsz4 : Gte → ℕ → Gte
cmd_avsz4 g cmd =
    let g1 = clear_flag g in
    let v = zsf4 g1 *ℤ pos (sz g1 0 + sz g1 1 + sz g1 2 + sz g1 3) in
    put_depth (set_mac0 g1 v) 7 (int32 (shift_right v 12))

-- Three values to MAC1-3 and IR1-3, as the commands do it after they have computed all three.
unfoldable pub set_mac_irs : Gte → Vector → Bool → Bool → Gte
set_mac_irs g m sf lm = set_mac_ir (set_mac_ir (set_mac_ir g 1 m.x sf lm) 2 m.y sf lm) 3 m.z sf lm

unfoldable pub cmd_op : Gte → ℕ → Gte
cmd_op g cmd =
    let g1 = clear_flag g in
    set_mac_irs g1
      (record {
        x = rt g1 1 1 *ℤ ir g1 3 -ℤ rt g1 2 2 *ℤ ir g1 2;
        y = rt g1 2 2 *ℤ ir g1 1 -ℤ rt g1 0 0 *ℤ ir g1 3;
        z = rt g1 0 0 *ℤ ir g1 2 -ℤ rt g1 1 1 *ℤ ir g1 1;
      })
      (sf_of cmd) (lm_of cmd)

-- One component of SQR: the register is read after the components before it are stored.
abbrev pub square : Gte → ℕ → Bool → Bool → Gte
square g n sf lm = set_mac_ir g n (ir g n *ℤ ir g n) sf lm

unfoldable pub cmd_sqr : Gte → ℕ → Gte
cmd_sqr g cmd =
    let sf = sf_of cmd in
    let lm = lm_of cmd in square (square (square (clear_flag g) 1 sf lm) 2 sf lm) 3 sf lm

abbrev pub select_matrix : ℕ → MatFn
select_matrix mx =
    if mx == 0 then rt else if mx == 1 then mat_lm else if mx == 2 then mat_lcm else mat_buggy

abbrev pub select_vector : Gte → ℕ → Vector
select_vector g vn = if leb vn 2 then vertex g vn else ir_vector g

abbrev pub select_translation : Gte → ℕ → Vector
select_translation g tv =
    if tv == 0
    then translation g
    else if tv == 1
    then background g
    else if tv == 2
    then far_colour g
    else zero_vector

unfoldable pub cmd_mvmva : Gte → ℕ → Gte
cmd_mvmva g cmd =
    let g1 = clear_flag g in
    let mf = select_matrix (low_bits (cmd >> 17) 2) in
    let v = select_vector g1 (low_bits (cmd >> 15) 2) in
    let tv = low_bits (cmd >> 13) 2 in
    let t = select_translation g1 tv in
    if tv == 2
    then mat_mul_vec_buggy g1 mf t v (sf_of cmd) (lm_of cmd)
    else mat_mul_vec g1 mf t v (sf_of cmd) (lm_of cmd)
