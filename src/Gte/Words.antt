-- ===== src/Gte/Words.antt =====
-- The register file of the geometry coprocessor: 32 and 32 words, whatever is read and written.
use psx_emulator_em_c.Base.{
  ◌^◌, ◌<◌, ◌≡◌, length, All, ℤ, pos, negsuc, to_u32, ℕ, zero, suc, ◌+◌, ◌≤◌, arith, Bool, true,
  false, ◌||◌, ◌==◌, low_bits, u32, length-set, All-set, All-get_or, if◌then◌else◌, signed16,
  bit_and, bit_and-lt, test_bit, ◌<<◌,
}
use psx_emulator_em_c.Gte.{
  Gte, gte_write_data, gte_write_ctrl, put_dr, dr_at, put_cr, channel_of, cr_at, sign_extend16,
  count_leading, five_bits, lzcr, gte_read_data, gte_read_ctrl, is_signed_reg, is_unsigned_reg,
}

abbrev pub IsWord : ℕ → Type 0
IsWord x = x < 2 ^ 32

pub record IsGte (g : Gte) : Type 0 where
  pub dr_count : length g.dr ≡ 32
  pub dr_words : All IsWord g.dr
  pub cr_count : length g.cr ≡ 32
  pub cr_words : All IsWord g.cr

pub to_u32-lt : (a : ℤ) → IsWord (to_u32 a)
to_u32-lt (pos n) = omega arith
to_u32-lt (negsuc n) = omega arith

pub put_dr-IsGte : {g : Gte} → IsGte g → (i w : ℕ) → IsWord w → IsGte (put_dr g i w)
put_dr-IsGte {g} v i w h = record {
  dr_count = omega (arith, length-set g.dr i w, v.dr_count);
  dr_words = All-set IsWord g.dr i w v.dr_words h;
  cr_count = v.cr_count;
  cr_words = v.cr_words;
}

pub dr_at-lt : {g : Gte} → IsGte g → (i : ℕ) → IsWord (dr_at g i)
dr_at-lt {g} v i = All-get_or IsWord g.dr i 0 v.dr_words (omega arith)

pub put_cr-IsGte : {g : Gte} → IsGte g → (i w : ℕ) → IsWord w → IsGte (put_cr g i w)
put_cr-IsGte {g} v i w h = record {
  dr_count = v.dr_count;
  dr_words = v.dr_words;
  cr_count = omega (arith, length-set g.cr i w, v.cr_count);
  cr_words = All-set IsWord g.cr i w v.cr_words h;
}

sign_extend16-lt : (w : ℕ) → IsWord (sign_extend16 w)
sign_extend16-lt w = to_u32-lt (signed16 (low_bits w 16))

count_leading-le : (ones : Bool) (fuel x : ℕ) → count_leading ones fuel x ≤ fuel
unfolding count_leading
count_leading-le ones zero x = omega arith
count_leading-le ones (suc fuel) x = ground (arith, count_leading-le ones fuel (u32 (x << 1)))

five_bits-le : (w : ℕ) → five_bits w ≤ 31
unfolding five_bits
five_bits-le w = ground arith

pick-lt : (b : Bool) {x y : ℕ} → IsWord x → IsWord y → IsWord (if b then x else y)
pick-lt true hx hy = hx
pick-lt false hx hy = hy

lzcr-lt : (w : ℕ) → IsWord (lzcr w)
unfolding lzcr
lzcr-lt w = pick-lt (w == 0) (omega arith) (omega (arith, count_leading-le (test_bit w 31) 32 w))

module _ {g : Gte} (v : IsGte g) where
  -- The writes of registers 15 and 28, which touch four registers.
  put_dr_four :
      (i a j b k d l e : ℕ)
      → IsWord a
      → IsWord b
      → IsWord d
      → IsWord e
      → IsGte (put_dr (put_dr (put_dr (put_dr g i a) j b) k d) l e)
  put_dr_four i a j b k d l e ha hb hd he =
      put_dr-IsGte (put_dr-IsGte (put_dr-IsGte (put_dr-IsGte v i a ha) j b hb) k d hd) l e he

  pub gte_write_data-IsGte : (reg w : ℕ) → IsWord w → IsGte (gte_write_data g reg w)
  unfolding gte_write_data
  gte_write_data-IsGte reg w h = ground (
    arith,
    put_dr_four 12 (dr_at g 13) 13 (dr_at g 14) 14 w 15 w (dr_at-lt v 13) (dr_at-lt v 14) h h,
    put_dr_four 9 (channel_of w 0) 10 (channel_of w 5) 11 (channel_of w 10) 28 w (omega arith)
        (omega arith) (omega arith) h,
    put_dr-IsGte v reg w h,
    put_dr-IsGte v 30 w h,
  )

  pub gte_write_ctrl-IsGte : (reg w : ℕ) → IsWord w → IsGte (gte_write_ctrl g reg w)
  unfolding gte_write_ctrl
  gte_write_ctrl-IsGte reg w h = ground (
    arith,
    put_cr-IsGte v reg w h,
    put_cr-IsGte v 31 (bit_and w 0x7fff_f000) (bit_and-lt 32 w 0x7fff_f000 h (omega arith)),
  )

  pub gte_read_data-lt : (reg : ℕ) → IsWord (gte_read_data g reg)
  unfolding gte_read_data
  gte_read_data-lt reg = pick-lt (is_signed_reg reg) (sign_extend16-lt (dr_at g reg)) (
      pick-lt (is_unsigned_reg reg) (omega arith) (
        pick-lt (reg == 15) (dr_at-lt v 14) (
          pick-lt (reg == 28 || reg == 29) colour
            (pick-lt (reg == 31) (lzcr-lt (dr_at g 30)) (dr_at-lt v reg)))))
    where
      colour :
          IsWord
            (five_bits (dr_at g 9) + five_bits (dr_at g 10) << 5 + five_bits (dr_at g 11) << 10)
      colour =
          omega
            (arith, five_bits-le (dr_at g 9), five_bits-le (dr_at g 10), five_bits-le (dr_at g 11))

  pub cr_at-lt : (i : ℕ) → IsWord (cr_at g i)
  cr_at-lt i = All-get_or IsWord g.cr i 0 v.cr_words (omega arith)

  pub gte_read_ctrl-lt : (reg : ℕ) → IsWord (gte_read_ctrl g reg)
  unfolding gte_read_ctrl
  gte_read_ctrl-lt reg = ground (arith, cr_at-lt reg, cr_at-lt 31, sign_extend16-lt (cr_at g reg))
