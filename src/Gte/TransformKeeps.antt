-- ===== src/Gte/TransformKeeps.antt =====
-- gte.c: what the products and the perspective transform keep of the register file.
use psx_emulator_em_c.Base.{ℕ, ◌+◌, ◌<◌, ◌≤◌, arith, Bool, false, ℤ, if-cases}
use psx_emulator_em_c.Gte.{Gte}
use psx_emulator_em_c.Gte.Fields.{Vector, MatFn}
use psx_emulator_em_c.Gte.Transform.{
  mac_row, mat_mul_vec, set_mac_ir, short_row, mat_mul_vec_buggy, rotated, rtps_rotate,
  rtps_project, gte_rtps,
}
use psx_emulator_em_c.Gte.Keeps.{
  From, put_dr-From, flag_if-From, mac123_result-From, set_mac-From, check_mac0_overflow-From,
  set_mac0-From, set_ir-From, set_ir0-From, push_sxy-From, push_sz-From,
}

module _ {g0 : Gte} {i j : ℕ} (hi : i < 7) (hj : j < 31) where
  -- The products of a matrix and a vector.
  pub mac_row-From :
      {g : Gte} (h : From g0 i j g) (mf : MatFn) (r : ℕ) (t : ℤ) (v : Vector)
      → From g0 i j (mac_row g mf r t v).1
  unfolding mac_row
  mac_row-From h mf r t v =
      mac123_result-From hi hj (mac123_result-From hi hj h (r + 1) _) (r + 1) _

  pub set_mac_ir-From :
      {g : Gte} (h : From g0 i j g) (n : ℕ) (v : ℤ) (sf lm : Bool)
      → From g0 i j (set_mac_ir g n v sf lm)
  unfolding set_mac_ir
  set_mac_ir-From h n v sf lm = set_ir-From hi hj (set_mac-From hi hj h n v sf) n _ lm

  module _ {g : Gte} (h : From g0 i j g) (mf : MatFn) (t v : Vector) (sf lm : Bool) where
    pub mat_mul_vec-From : From g0 i j (mat_mul_vec g mf t v sf lm)
    unfolding mat_mul_vec
    mat_mul_vec-From =
        let a = mac_row-From (mac_row-From (mac_row-From h mf 0 t.x v) mf 1 t.y v) mf 2 t.z v in
        let b =
          set_mac-From hi hj (set_mac-From hi hj (set_mac-From hi hj a 1 _ sf) 2 _ sf) 3 _ sf in
        set_ir-From hi hj (set_ir-From hi hj (set_ir-From hi hj b 1 _ lm) 2 _ lm) 3 _ lm

    pub short_row-From : (r : ℕ) → From g0 i j (short_row g mf r v).1
    unfolding short_row
    short_row-From r = mac123_result-From hi hj h (r + 1) _

  module _ {g : Gte} (h : From g0 i j g) (mf : MatFn) (t v : Vector) (sf lm : Bool) where
    pub mat_mul_vec_buggy-From : From g0 i j (mat_mul_vec_buggy g mf t v sf lm)
    unfolding mat_mul_vec_buggy
    mat_mul_vec_buggy-From =
        let p1 = mac123_result-From hi hj h 1 _ in
        let p2 = mac123_result-From hi hj p1 2 _ in
        let p3 = mac123_result-From hi hj p2 3 _ in
        let g1 = set_ir-From hi hj p3 1 _ false in
        let g2 = set_ir-From hi hj g1 2 _ false in
        let g3 = set_ir-From hi hj g2 3 _ false in
        let m1 = short_row-From g3 mf t v sf lm 0 in
        let m2 = short_row-From m1 mf t v sf lm 1 in
        let m3 = short_row-From m2 mf t v sf lm 2 in
        set_mac_ir-From (set_mac_ir-From (set_mac_ir-From m3 1 _ sf lm) 2 _ sf lm) 3 _ sf lm

  -- The perspective transform.
  pub rotated-From :
      {g : Gte} (h : From g0 i j g) (r : ℕ) (t : ℤ) (v : Vector) → From g0 i j (rotated g r t v).1
  unfolding rotated
  rotated-From h r t v = mac123_result-From hi hj (mac_row-From h _ r t v) (r + 1) _

  pub rtps_rotate-From :
      {g : Gte} (h : From g0 i j g) (v : ℕ) (sf lm : Bool) → From g0 i j (rtps_rotate g v sf lm)
  unfolding rtps_rotate
  rtps_rotate-From h v sf lm =
      let p22 : 22 < 32 = omega arith in
      let p11 : 7 ≤ 11 = omega arith in
      let a = rotated-From (rotated-From (rotated-From h 0 _ _) 1 _ _) 2 _ _ in
      let b = set_mac-From hi hj (set_mac-From hi hj (set_mac-From hi hj a 1 _ sf) 2 _ sf) 3 _ sf in
      let c = set_ir-From hi hj (set_ir-From hi hj b 1 _ lm) 2 _ lm in
      let d = flag_if-From hi hj c _ 22 p22 in
      push_sz-From hi hj (put_dr-From hi hj d 11 _ p11 (omega arith)) _

  pub rtps_project-From :
      {g : Gte} (h : From g0 i j g) (last : Bool) → From g0 i j (rtps_project g last)
  unfolding rtps_project
  rtps_project-From h last =
      let a = flag_if-From hi hj h _ 17 (omega arith) in
      let b = check_mac0_overflow-From hi hj (check_mac0_overflow-From hi hj a _) _ in
      let c = push_sxy-From hi hj b _ _ in
      if-cases (From g0 i j) last (set_mac0-From hi hj (set_ir0-From hi hj c _) _) c

  pub gte_rtps-From :
      {g : Gte} (h : From g0 i j g) (v : ℕ) (sf lm last : Bool)
      → From g0 i j (gte_rtps g v sf lm last)
  unfolding gte_rtps
  gte_rtps-From h v sf lm last = rtps_project-From (rtps_rotate-From h v sf lm) last
