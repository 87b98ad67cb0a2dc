-- ===== src/Gte/Laws.antt =====
-- What the CPU reads back from the registers of the geometry coprocessor that it writes.
use psx_emulator_em_c.Base.{
  Bool-cases, inl, inr, ℕ, ◌^◌, ◌<◌, ◌≡◌, ◌≢◌, refl, sym, ap, ◌∙◌, arith, Bool, true, false, length,
  length-set, get_or-set_self, get_or-set_ne, ==_iff, ==_false, ◌==◌, if◌then◌else◌, ◌<<◌, ◌>>◌,
  low_bits, shift_right,
}
use native.Mathlib.Nat.{div-one}
use psx_emulator_em_c.Gte.{
  Gte, dr_at, put_dr, five_bits, channel_of, sign_extend16, is_signed_reg, is_unsigned_reg,
  gte_read_data, gte_write_data,
}

-- There are 32 data registers.
abbrev pub IsValid : Gte → Type 0
IsValid g = length g.dr ≡ 32

pub dr-put_self : (g : Gte) (i v : ℕ) → IsValid g → i < 32 → dr_at (put_dr g i v) i ≡ v
dr-put_self g i v h lt = get_or-set_self g.dr i v 0 (omega (arith, h))

dr-put_ne : (g : Gte) (i j v : ℕ) → i ≢ j → dr_at (put_dr g i v) j ≡ dr_at g j
dr-put_ne g i j v ne = get_or-set_ne g.dr i j v 0 ne

pub dr-put :
    (g : Gte) (i j v : ℕ)
    → IsValid g
    → i < 32
    → dr_at (put_dr g i v) j ≡ (if j == i then v else dr_at g j)
dr-put g i j v h lt = elim (Bool-cases (j == i)) [
  | inl e ↦ rw e (ap (dr_at (put_dr g i v)) ((==_iff j i).0 e) ∙ dr-put_self g i v h lt)
  | inr e ↦ rw e (dr-put_ne g i j v (ground arith))
]

put_dr-IsValid : (g : Gte) (i v : ℕ) → IsValid g → IsValid (put_dr g i v)
put_dr-IsValid g i v h = length-set g.dr i v ∙ h

five_bits-channel : (c : ℕ) → c < 2 ^ 5 → five_bits (c << 7) ≡ c
unfolding five_bits shift_right
five_bits-channel c h = ground arith

-- With 32 data registers, what is written to IRGB is read back from ORGB, which packs IR1, IR2
-- and IR3 again: the three channels of 5 bits each come back, and bit 15 and above do not.
pub gte_read_data-irgb :
    (g : Gte) (val : ℕ)
    → length g.dr ≡ 32
    → gte_read_data (gte_write_data g 28 val) 29 ≡ low_bits val 15
unfolding gte_read_data gte_write_data
gte_read_data-irgb g val h =
    let g1 = put_dr g 9 (channel_of val 0) in
    let g2 = put_dr g1 10 (channel_of val 5) in
    let g3 = put_dr g2 11 (channel_of val 10) in
    let v1 = put_dr-IsValid g 9 (channel_of val 0) h in
    let v2 = put_dr-IsValid g1 10 (channel_of val 5) v1 in
    let ir1 : dr_at (put_dr g3 28 val) 9 ≡ channel_of val 0 =
      dr-put_ne g3 28 9 val (omega arith)
      ∙ dr-put_ne g2 11 9 (channel_of val 10) (omega arith)
      ∙ dr-put_ne g1 10 9 (channel_of val 5) (omega arith)
      ∙ dr-put_self g 9 (channel_of val 0) h (omega arith) in
    let ir2 : dr_at (put_dr g3 28 val) 10 ≡ channel_of val 5 =
      dr-put_ne g3 28 10 val (omega arith)
      ∙ dr-put_ne g2 11 10 (channel_of val 10) (omega arith)
      ∙ dr-put_self g1 10 (channel_of val 5) v1 (omega arith) in
    let ir3 : dr_at (put_dr g3 28 val) 11 ≡ channel_of val 10 =
      dr-put_ne g3 28 11 val (omega arith)
      ∙ dr-put_self g2 11 (channel_of val 10) v2 (omega arith) in
    omega (
      arith,
      ap five_bits ir1,
      ap five_bits ir2,
      ap five_bits ir3,
      five_bits-channel (low_bits (val >> 0) 5) (omega arith),
      five_bits-channel (low_bits (val >> 5) 5) (omega arith),
      five_bits-channel (low_bits (val >> 10) 5) (omega arith),
      div-one val,
    )

push :
    (g : Gte) (v : ℕ)
    → length g.dr ≡ 32
    → let g' = gte_write_data g 15 v in
      (length g'.dr ≡ 32)
      × (dr_at g' 12 ≡ dr_at g 13)
      × (dr_at g' 13 ≡ dr_at g 14)
      × (dr_at g' 14 ≡ v)
unfolding gte_write_data
push g v h =
    let a = dr_at g 13 in
    let b = dr_at g 14 in
    let g1 = put_dr g 12 a in
    let g2 = put_dr g1 13 b in
    let g3 = put_dr g2 14 v in
    let v1 = put_dr-IsValid g 12 a h in
    let v2 = put_dr-IsValid g1 13 b v1 in
    let v3 = put_dr-IsValid g2 14 v v2 in
    (
      put_dr-IsValid g3 15 v v3,
      dr-put_ne g3 15 12 v (omega arith)
          ∙ dr-put_ne g2 14 12 v (omega arith)
          ∙ dr-put_ne g1 13 12 b (omega arith)
          ∙ dr-put_self g 12 a h (omega arith),
      dr-put_ne g3 15 13 v (omega arith)
          ∙ dr-put_ne g2 14 13 v (omega arith)
          ∙ dr-put_self g1 13 b v1 (omega arith),
      dr-put_ne g3 15 14 v (omega arith) ∙ dr-put_self g2 14 v v2 (omega arith),
    )

-- With 32 data registers, three writes of SXYP fill the queue of screen coordinates: SXY0,
-- SXY1 and SXY2 are read back in the order of the writes, and SXYP reads as SXY2.
pub gte_read_data-sxyp :
    (g : Gte) (a b c : ℕ)
    → length g.dr ≡ 32
    → let g' = gte_write_data (gte_write_data (gte_write_data g 15 a) 15 b) 15 c in
      (gte_read_data g' 12 ≡ a)
      × (gte_read_data g' 13 ≡ b)
      × (gte_read_data g' 14 ≡ c)
      × (gte_read_data g' 15 ≡ c)
unfolding gte_read_data
gte_read_data-sxyp g a b c h =
    let p1 = push g a h in
    let p2 = push (gte_write_data g 15 a) b p1.0 in
    let p3 = push (gte_write_data (gte_write_data g 15 a) 15 b) c p2.0 in
    (p3.1 ∙ p2.2 ∙ p1.3, p3.2 ∙ p2.3, p3.3, p3.3)

plain_write :
    (g : Gte) (reg val : ℕ)
    → reg ≢ 15
    → reg ≢ 28
    → reg ≢ 29
    → reg ≢ 31
    → gte_write_data g reg val ≡ put_dr g reg val
unfolding gte_write_data
plain_write g reg val n15 n28 n29 n31 =
    rw (==_false reg 15 n15, ==_false reg 28 n28, ==_false reg 29 n29, ==_false reg 31 n31)
      (lzcs (reg == 30) refl)
  where
    lzcs :
        (b : Bool)
        → (reg == 30) ≡ b
        → (if b then put_dr g 30 val else put_dr g reg val) ≡ put_dr g reg val
    lzcs true e = ap (λ (r : ℕ). put_dr g r val) (sym ((==_iff reg 30).0 e))
    lzcs false e = refl

plain_read :
    (g : Gte) (reg : ℕ)
    → reg ≢ 15
    → reg ≢ 28
    → reg ≢ 29
    → reg ≢ 31
    → gte_read_data g reg ≡ (
        if is_signed_reg reg
        then sign_extend16 (dr_at g reg)
        else if is_unsigned_reg reg
        then low_bits (dr_at g reg) 16
        else dr_at g reg)
unfolding gte_read_data
plain_read g reg n15 n28 n29 n31 =
    rw (==_false reg 15 n15, ==_false reg 28 n28, ==_false reg 29 n29, ==_false reg 31 n31)

-- What a data register, of the 32, that is neither SXYP, IRGB, ORGB nor LZCR gives back of the
-- word that was written to it: the 16-bit registers extend its low half, with the sign or with
-- zeroes, and the others keep the word. The write changes no other data register.
pub gte_read_data-gte_write_data :
    (g : Gte) (reg val : ℕ)
    → length g.dr ≡ 32
    → reg < 32
    → reg ≢ 15
    → reg ≢ 28
    → reg ≢ 29
    → reg ≢ 31
    → let g' = gte_write_data g reg val in
      (gte_read_data g' reg ≡ (
        if is_signed_reg reg
        then sign_extend16 val
        else if is_unsigned_reg reg
        then low_bits val 16
        else val))
      × ((other : ℕ) → dr_at g' other ≡ (if other == reg then val else dr_at g other))
gte_read_data-gte_write_data g reg val h lt n15 n28 n29 n31 =
    let e = plain_write g reg val n15 n28 n29 n31 in
    let self = dr-put_self g reg val h lt in
    rw e (
      plain_read (put_dr g reg val) reg n15 n28 n29 n31 ∙ rw self,
      λ other. dr-put g reg other val h lt,
    )
