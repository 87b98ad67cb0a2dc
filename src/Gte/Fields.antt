-- ===== src/Gte/Fields.antt =====
-- gte.c: the fields of the registers that the commands read, as signed values.
use psx_emulator_em_c.Base.{
  ℕ, ◌+◌, ◌*◌, ◌/◌, ◌%◌, ◌==◌, if◌then◌else◌, u8, u16, ◌<<◌, ◌>>◌, ℤ, pos, ◌-ℤ◌, signed16, signed32,
  to_u32,
}
use psx_emulator_em_c.Gte.{Gte, dr_at, cr_at}

-- The casts `(int32_t)v` and `(int16_t)v` of a wider value, and `(uint32_t)(uint16_t)(int16_t)v`.
abbrev pub int32 : ℤ → ℤ
int32 v = signed32 (to_u32 v)

abbrev pub to_u16 : ℤ → ℕ
to_u16 v = u16 (to_u32 v)

abbrev pub int16 : ℤ → ℤ
int16 v = signed16 (to_u16 v)

-- `(int16_t)w` of a word.
abbrev pub half : ℕ → ℤ
half w = signed16 (u16 w)

-- Three coordinates, of a vector, of the matrix products or of a colour.
pub record Vector : Type 0 where
  pub x : ℤ
  pub y : ℤ
  pub z : ℤ

abbrev pub zero_vector : Vector
zero_vector = record { x = pos 0; y = pos 0; z = pos 0 }

-- VX(n), VY(n) and VZ(n).
unfoldable pub vertex : Gte → ℕ → Vector
vertex g n = record {
  x = half (dr_at g (n * 2));
  y = half (dr_at g (n * 2) >> 16);
  z = half (dr_at g (n * 2 + 1));
}

unfoldable pub sx : Gte → ℕ → ℤ
sx g i = half (dr_at g (12 + i))

unfoldable pub sy : Gte → ℕ → ℤ
sy g i = half (dr_at g (12 + i) >> 16)

unfoldable pub sz : Gte → ℕ → ℕ
sz g i = u16 (dr_at g (16 + i))

-- IR0 to IR3.
unfoldable pub ir : Gte → ℕ → ℤ
ir g n = half (dr_at g (8 + n))

-- MAC0 to MAC3.
unfoldable pub mac : Gte → ℕ → ℤ
mac g n = signed32 (dr_at g (24 + n))

-- IR1, IR2 and IR3.
unfoldable pub ir_vector : Gte → Vector
ir_vector g = record { x = ir g 1; y = ir g 2; z = ir g 3 }

unfoldable pub gte_r : Gte → ℕ
gte_r g = u8 (dr_at g 6)

unfoldable pub gte_g : Gte → ℕ
gte_g g = u8 (dr_at g 6 >> 8)

unfoldable pub gte_b : Gte → ℕ
gte_b g = u8 (dr_at g 6 >> 16)

-- A matrix of nine halves, two to a control register, from register `base` on.
abbrev pub matrix_at : ℕ → Gte → ℕ → ℕ → ℤ
matrix_at base g r c =
    let idx = r * 3 + c in
    let word = cr_at g (base + idx / 2) in half (if idx % 2 == 1 then word >> 16 else word)

-- `MatFn`.
abbrev pub MatFn : Type 0
MatFn = Gte → ℕ → ℕ → ℤ

unfoldable pub rt : Gte → ℕ → ℕ → ℤ
rt g r c = matrix_at 0 g r c

unfoldable pub mat_lm : Gte → ℕ → ℕ → ℤ
mat_lm g r c = matrix_at 8 g r c

unfoldable pub mat_lcm : Gte → ℕ → ℕ → ℤ
mat_lcm g r c = matrix_at 16 g r c

unfoldable pub mat_buggy : Gte → ℕ → ℕ → ℤ
mat_buggy g r c =
    if r == 0
    then (if c == 0
        then int16 (pos 0 -ℤ half (u16 (gte_r g << 4)))
        else if c == 1
        then half (u16 (gte_r g << 4))
        else ir g 0)
    else if r == 1
    then rt g 0 2
    else rt g 1 1

abbrev pub control_vector : ℕ → Gte → Vector
control_vector base g = record {
  x = signed32 (cr_at g base);
  y = signed32 (cr_at g (base + 1));
  z = signed32 (cr_at g (base + 2));
}

-- TRX, TRY, TRZ; RBK, GBK, BBK; RFC, GFC, BFC.
unfoldable pub translation : Gte → Vector
translation g = control_vector 5 g

unfoldable pub background : Gte → Vector
background g = control_vector 13 g

unfoldable pub far_colour : Gte → Vector
far_colour g = control_vector 21 g

unfoldable pub ofx : Gte → ℤ
ofx g = signed32 (cr_at g 24)

unfoldable pub ofy : Gte → ℤ
ofy g = signed32 (cr_at g 25)

unfoldable pub plane_distance : Gte → ℕ
plane_distance g = u16 (cr_at g 26)

unfoldable pub dqa : Gte → ℤ
dqa g = half (cr_at g 27)

unfoldable pub dqb : Gte → ℤ
dqb g = signed32 (cr_at g 28)

unfoldable pub zsf3 : Gte → ℤ
zsf3 g = half (cr_at g 29)

unfoldable pub zsf4 : Gte → ℤ
zsf4 g = half (cr_at g 30)
