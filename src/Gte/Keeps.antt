-- ===== src/Gte/Keeps.antt =====
-- gte.c: what the steps of a command keep of the register file.
use psx_emulator_em_c.Base.{
  ℕ, ◌+◌, ◌^◌, ◌<◌, ◌≤◌, ◌≡◌, ◌∙◌, subst, arith, Bool, true, false, get_or-set_ne, bit_or-lt,
  bit_or-bit, set_bit, ℤ,
}
use native.Mathlib.Nat.{pow-le-pow_right}
use psx_emulator_em_c.Gte.{Gte, dr_at, cr_at, put_dr, put_cr}
use psx_emulator_em_c.Gte.Saturate.{
  flag_if, f_mac_pos, f_mac_neg, f_ir_sat, f_colour, mac123_result, set_mac, set_mac0,
  check_mac0_overflow, set_ir, set_ir0, sat_rgb, push_sxy, put_depth, push_sz, push_rgb,
}
use psx_emulator_em_c.Gte.Words.{
  IsWord, IsGte, to_u32-lt, put_dr-IsGte, put_cr-IsGte, dr_at-lt, cr_at-lt,
}

-- `g` is a register file that a command may reach from `g0`: data register `i` and control
-- register `j` are those of `g0`.
pub record From (g0 : Gte) (i j : ℕ) (g : Gte) : Type 0 where
  pub valid : IsGte g
  pub dr_kept : dr_at g i ≡ dr_at g0 i
  pub cr_kept : cr_at g j ≡ cr_at g0 j

flag-lt : (w k : ℕ) → IsWord w → k < 32 → IsWord (set_bit w k)
flag-lt w k hw hk = subst IsWord (bit_or-bit k w) (bit_or-lt 32 w (2 ^ k) hw (power k hk))
  where
    power : (k : ℕ) → k < 32 → 2 ^ k < 2 ^ 32
    power k h = omega (arith, pow-le-pow_right {n = 2} (omega arith) {i = k} {j = 31} (omega arith))

-- Only the result registers and FLAG are written.
module _ {g0 : Gte} {i j : ℕ} (hi : i < 7) (hj : j < 31) {g : Gte} (v : From g0 i j g) where
  pub put_dr-From : (k w : ℕ) → 7 ≤ k → IsWord w → From g0 i j (put_dr g k w)
  put_dr-From k w hk hw = record {
    valid = put_dr-IsGte v.valid k w hw;
    dr_kept = get_or-set_ne g.dr k i w 0 (omega arith) ∙ v.dr_kept;
    cr_kept = v.cr_kept;
  }

  pub put_flag-From : (w : ℕ) → IsWord w → From g0 i j (put_cr g 31 w)
  put_flag-From w hw = record {
    valid = put_cr-IsGte v.valid 31 w hw;
    dr_kept = v.dr_kept;
    cr_kept = get_or-set_ne g.cr 31 j w 0 (omega arith) ∙ v.cr_kept;
  }

  pub flag_if-From : (b : Bool) (k : ℕ) → k < 32 → From g0 i j (flag_if b k g)
  unfolding flag_if
  flag_if-From true k hk =
      put_flag-From (set_bit (cr_at g 31) k) (flag-lt (cr_at g 31) k (cr_at-lt v.valid 31) hk)
  flag_if-From false k hk = v

  pub copy-From : (k l : ℕ) → 7 ≤ k → From g0 i j (put_dr g k (dr_at g l))
  copy-From k l hk = put_dr-From k (dr_at g l) hk (dr_at-lt v.valid l)

f_mac_pos-lt : (n : ℕ) → f_mac_pos n < 32
f_mac_pos-lt n = ground arith

f_mac_neg-lt : (n : ℕ) → f_mac_neg n < 32
f_mac_neg-lt n = ground arith

f_ir_sat-lt : (n : ℕ) → f_ir_sat n < 32
f_ir_sat-lt n = ground arith

f_colour-lt : (n : ℕ) → f_colour n < 32
f_colour-lt n = ground arith

module _ {g0 : Gte} {i j : ℕ} (hi : i < 7) (hj : j < 31) where
  module _ {g : Gte} (h : From g0 i j g) where
    pub mac123_result-From : (n : ℕ) (v : ℤ) → From g0 i j (mac123_result g n v).1
    unfolding mac123_result
    mac123_result-From n v =
        flag_if-From hi hj (flag_if-From hi hj h _ (f_mac_pos n) (f_mac_pos-lt n)) _ (f_mac_neg n)
          (f_mac_neg-lt n)

  module _ {g : Gte} (h : From g0 i j g) where
    pub set_mac-From : (n : ℕ) (v : ℤ) (sf : Bool) → From g0 i j (set_mac g n v sf).1
    unfolding set_mac
    set_mac-From n v sf =
        put_dr-From hi hj (mac123_result-From h n v) (24 + n) _ (omega arith) (to_u32-lt _)

    pub check_mac0_overflow-From : (v : ℤ) → From g0 i j (check_mac0_overflow g v)
    unfolding check_mac0_overflow
    check_mac0_overflow-From v =
        flag_if-From hi hj (flag_if-From hi hj h _ 16 (omega arith)) _ 15 (omega arith)

    pub set_mac0-From : (v : ℤ) → From g0 i j (set_mac0 g v)
    unfolding set_mac0
    set_mac0-From v =
        put_dr-From hi hj
          (flag_if-From hi hj (flag_if-From hi hj h _ 16 (omega arith)) _ 15 (omega arith)) 24 _
          (omega arith) (to_u32-lt _)

    pub set_ir-From : (n : ℕ) (v : ℤ) (lm : Bool) → From g0 i j (set_ir g n v lm)
    unfolding set_ir
    set_ir-From n v lm =
        put_dr-From hi hj (flag_if-From hi hj h _ (f_ir_sat n) (f_ir_sat-lt n)) (8 + n) _
          (omega arith) (omega arith)

    pub set_ir0-From : (v : ℤ) → From g0 i j (set_ir0 g v)
    unfolding set_ir0
    set_ir0-From v =
        put_dr-From hi hj (flag_if-From hi hj h _ 12 (omega arith)) 8 _ (omega arith) (omega arith)

    pub sat_rgb-From : (ch : ℕ) (v : ℤ) → From g0 i j (sat_rgb g ch v).1
    unfolding sat_rgb
    sat_rgb-From ch v = flag_if-From hi hj h _ (f_colour ch) (f_colour-lt ch)

    pub put_depth-From : (k : ℕ) (v : ℤ) → 7 ≤ k → From g0 i j (put_depth g k v)
    unfolding put_depth
    put_depth-From k v hk =
        put_dr-From hi hj
          (flag_if-From hi hj (flag_if-From hi hj h _ 18 (omega arith)) _ 18 (omega arith)) k _ hk
          (omega arith)

    pub push_sxy-From : (x y : ℤ) → From g0 i j (push_sxy g x y)
    unfolding push_sxy
    push_sxy-From x y =
        let p13 : 13 < 32 = omega arith in
        let p14 : 14 < 32 = omega arith in
        let q14 : 7 ≤ 14 = omega arith in
        let q15 : 7 ≤ 15 = omega arith in
        let h1 = copy-From hi hj h 12 13 (omega arith) in
        let h2 = copy-From hi hj h1 13 14 (omega arith) in
        let h3 = flag_if-From hi hj h2 _ 14 p14 in
        let h4 = flag_if-From hi hj h3 _ 13 p13 in
        let h5 = put_dr-From hi hj h4 14 _ q14 (omega arith) in copy-From hi hj h5 15 14 q15

  module _ {g : Gte} (h : From g0 i j g) where
    pub push_sz-From : (v : ℤ) → From g0 i j (push_sz g v)
    unfolding push_sz
    push_sz-From v =
        let h1 = copy-From hi hj h 16 17 (omega arith) in
        let h2 = copy-From hi hj h1 17 18 (omega arith) in
        let h3 = copy-From hi hj h2 18 19 (omega arith) in put_depth-From h3 19 v (omega arith)

    pub push_rgb-From : (r gr b : ℤ) → From g0 i j (push_rgb g r gr b)
    unfolding push_rgb sat_rgb
    push_rgb-From r gr b =
        let h1 = copy-From hi hj h 20 21 (omega arith) in
        let h2 = copy-From hi hj h1 21 22 (omega arith) in
        let h3 = sat_rgb-From h2 0 r in
        let h4 = sat_rgb-From h3 1 gr in
        let h5 = sat_rgb-From h4 2 b in put_dr-From hi hj h5 22 _ (omega arith) (omega arith)
