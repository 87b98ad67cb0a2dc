-- ===== src/Gte/Transform.antt =====
-- gte.c: products of a matrix and a vector, and the perspective transform of one vertex.
use psx_emulator_em_c.Base.{
  ℕ, ◌+◌, ◌*◌, Bool, false, leb, if◌then◌else◌, ℤ, pos, negsuc, ◌+ℤ◌, ◌*ℤ◌, shift_right,
}
use psx_emulator_em_c.Gte.{Gte, put_dr}
use psx_emulator_em_c.Gte.Fields.{
  Vector, int32, int16, to_u16, vertex, sz, ir, mac, MatFn, rt, translation, ofx, ofy,
  plane_distance, dqa, dqb,
}
use psx_emulator_em_c.Gte.Saturate.{
  f_ir_sat, f_div_ovf, flag_if, outside, clamp, mac123_result, set_mac, check_mac0_overflow,
  set_mac0, ir_min, set_ir, set_ir0, push_sxy, push_sz,
}
use psx_emulator_em_c.Gte.Divide.{gte_divide}

-- Row `r` of a product, with the translation `t`: two partial sums are cut to 44 bits, and the
-- third product is added.
unfoldable pub mac_row : Gte → MatFn → ℕ → ℤ → Vector → ℤ × Gte
mac_row g mf r t v =
    let a = mac123_result g (r + 1) (t *ℤ pos 0x1000 +ℤ mf g r 0 *ℤ v.x) in
    let b = mac123_result a.1 (r + 1) (a.0 +ℤ mf a.1 r 1 *ℤ v.y) in (b.0 +ℤ mf b.1 r 2 *ℤ v.z, b.1)

unfoldable pub mat_mul_vec : Gte → MatFn → Vector → Vector → Bool → Bool → Gte
mat_mul_vec g mf t v sf lm =
    let m1 = mac_row g mf 0 t.x v in
    let m2 = mac_row m1.1 mf 1 t.y v in
    let m3 = mac_row m2.1 mf 2 t.z v in
    let r1 = set_mac m3.1 1 m1.0 sf in
    let r2 = set_mac r1.1 2 m2.0 sf in
    let r3 = set_mac r2.1 3 m3.0 sf in set_ir (set_ir (set_ir r3.1 1 r1.0 lm) 2 r2.0 lm) 3 r3.0 lm

-- `set_ir(gte, n, set_mac(gte, n, v, sf), lm)`.
unfoldable pub set_mac_ir : Gte → ℕ → ℤ → Bool → Bool → Gte
set_mac_ir g n v sf lm = let r = set_mac g n v sf in set_ir r.1 n r.0 lm

-- Row `r` of the product without its first column and translation.
unfoldable pub short_row : Gte → MatFn → ℕ → Vector → ℤ × Gte
short_row g mf r v =
    let a = mac123_result g (r + 1) (mf g r 1 *ℤ v.y) in (a.0 +ℤ mf a.1 r 2 *ℤ v.z, a.1)

unfoldable pub mat_mul_vec_buggy : Gte → MatFn → Vector → Vector → Bool → Bool → Gte
mat_mul_vec_buggy g mf t v sf lm =
    let shift = if sf then 12 else 0 in
    let p1 = mac123_result g 1 (t.x *ℤ pos 0x1000 +ℤ mf g 0 0 *ℤ v.x) in
    let p2 = mac123_result p1.1 2 (t.y *ℤ pos 0x1000 +ℤ mf p1.1 1 0 *ℤ v.x) in
    let p3 = mac123_result p2.1 3 (t.z *ℤ pos 0x1000 +ℤ mf p2.1 2 0 *ℤ v.x) in
    let g1 = set_ir p3.1 1 (int32 (shift_right p1.0 shift)) false in
    let g2 = set_ir g1 2 (int32 (shift_right p2.0 shift)) false in
    let g3 = set_ir g2 3 (int32 (shift_right p3.0 shift)) false in
    let m1 = short_row g3 mf 0 v in
    let m2 = short_row m1.1 mf 1 v in
    let m3 = short_row m2.1 mf 2 v in
    set_mac_ir (set_mac_ir (set_mac_ir m3.1 1 m1.0 sf lm) 2 m2.0 sf lm) 3 m3.0 sf lm

-- A row of the rotation, cut to 44 bits once more.
unfoldable pub rotated : Gte → ℕ → ℤ → Vector → ℤ × Gte
rotated g r t v = let a = mac_row g rt r t v in mac123_result a.1 (r + 1) a.0

-- The part of `gte_rtps` before the division: the rotated vertex goes to MAC1-3, IR1-3 and SZ3.
unfoldable pub rtps_rotate : Gte → ℕ → Bool → Bool → Gte
rtps_rotate g v sf lm =
    let x = rotated g 0 (translation g).x (vertex g v) in
    let y = rotated x.1 1 (translation g).y (vertex g v) in
    let z = rotated y.1 2 (translation g).z (vertex g v) in
    let m1 = set_mac z.1 1 x.0 sf in
    let m2 = set_mac m1.1 2 y.0 sf in
    let m3 = set_mac m2.1 3 z.0 sf in
    let g1 = set_ir m3.1 1 (mac m3.1 1) lm in
    let g2 = set_ir g1 2 (mac g1 2) lm in
    let ir3_flag_value = int32 (shift_right z.0 12) in
    let g3 = flag_if (outside ir3_flag_value (negsuc 0x7fff) (pos 0x7fff)) (f_ir_sat 3) g2 in
    let g4 = put_dr g3 11 (to_u16 (int16 (clamp m3.0 (ir_min lm) (pos 0x7fff)))) in
    push_sz g4 (int32 (shift_right z.0 12))

-- The division and the projection to the screen, and for the last vertex the depth cue.
unfoldable pub rtps_project : Gte → Bool → Gte
rtps_project g last =
    let sz3 = sz g 3 in
    let g1 = flag_if (leb (sz3 * 2) (plane_distance g)) f_div_ovf g in
    let div = pos (gte_divide (plane_distance g1) sz3) in
    let px = ir g1 1 *ℤ div +ℤ ofx g1 in
    let py = ir g1 2 *ℤ div +ℤ ofy g1 in
    let g2 = check_mac0_overflow (check_mac0_overflow g1 px) py in
    let g3 = push_sxy g2 (int32 (shift_right px 16)) (int32 (shift_right py 16)) in
    let ir0_64 = shift_right (dqa g3 *ℤ div +ℤ dqb g3) 12 in
    if last then set_mac0 (set_ir0 g3 (int32 ir0_64)) (ir0_64 *ℤ pos 0x1000) else g3

unfoldable pub gte_rtps : Gte → ℕ → Bool → Bool → Bool → Gte
gte_rtps g v sf lm last = rtps_project (rtps_rotate g v sf lm) last
