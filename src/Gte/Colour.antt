-- ===== src/Gte/Colour.antt =====
-- gte.c: the commands on colours.
use psx_emulator_em_c.Base.{
  ℕ, ◌*◌, ◌^◌, Bool, if◌then◌else◌, ℤ, pos, ◌+ℤ◌, ◌-ℤ◌, ◌*ℤ◌, ◌/ℤ◌, shift_right,
}
use psx_emulator_em_c.Gte.{Gte}
use psx_emulator_em_c.Gte.Fields.{
  Vector, zero_vector, vertex, ir, ir_vector, mac, gte_r, gte_g, gte_b, mat_lm, mat_lcm, background,
  far_colour,
}
use psx_emulator_em_c.Gte.Saturate.{push_rgb}
use psx_emulator_em_c.Gte.Transform.{mat_mul_vec, set_mac_ir}
use psx_emulator_em_c.Gte.Commands.{sf_of, lm_of, clear_flag, set_mac_irs}

-- `push_rgb(gte, MAC1 >> 4, MAC2 >> 4, MAC3 >> 4)`.
unfoldable pub push_mac : Gte → Gte
push_mac g =
    push_rgb g (shift_right (mac g 1) 4) (shift_right (mac g 2) 4) (shift_right (mac g 3) 4)

-- The last four lines of the commands on colours.
unfoldable pub set_and_push : Gte → Vector → Bool → Bool → Gte
set_and_push g m sf lm = push_mac (set_mac_irs g m sf lm)

-- The colour of RGBC, scaled by 16.
abbrev pub primary : Gte → Vector
primary g = record { x = pos (gte_r g * 0x10); y = pos (gte_g g * 0x10); z = pos (gte_b g * 0x10) }

-- Coordinate by coordinate.
abbrev pub zip : (ℤ → ℤ → ℤ) → Vector → Vector → Vector
zip f a b = record { x = f a.x b.x; y = f a.y b.y; z = f a.z b.z }

-- `(FC << 12) + IR0 * v`.
abbrev pub towards_far : Gte → Vector → Vector
towards_far g v = zip (λ f a. f *ℤ pos (2 ^ 12) +ℤ ir g 0 *ℤ a) (far_colour g) v

unfoldable pub depth_cue : Gte → Bool → Bool → Gte
depth_cue g sf lm = set_and_push g (towards_far g (zip ◌-ℤ◌ (ir_vector g) (primary g))) sf lm

unfoldable pub cmd_dpcs : Gte → ℕ → Gte
cmd_dpcs g cmd = depth_cue (clear_flag g) (sf_of cmd) (lm_of cmd)

unfoldable pub cmd_dpct : Gte → ℕ → Gte
cmd_dpct g cmd =
    let sf = sf_of cmd in
    let lm = lm_of cmd in depth_cue (depth_cue (depth_cue (clear_flag g) sf lm) sf lm) sf lm

unfoldable pub cmd_intpl : Gte → ℕ → Gte
cmd_intpl g cmd =
    let g1 = clear_flag g in
    set_and_push g1 (towards_far g1 (zip ◌-ℤ◌ (ir_vector g1) (far_colour g1))) (sf_of cmd)
      (lm_of cmd)

unfoldable pub normal_color : Gte → ℕ → Bool → Bool → Gte
normal_color g v sf lm =
    let g1 = mat_mul_vec g mat_lm zero_vector (vertex g v) sf lm in
    mat_mul_vec g1 mat_lcm (background g1) (ir_vector g1) sf lm

-- `R * 0x10 * IR1`, and the same for the other two.
abbrev pub modulated : Gte → Vector
modulated g = zip ◌*ℤ◌ (primary g) (ir_vector g)

-- The body of NCDS for one vertex, and of the loop of NCDT.
unfoldable pub ncd_vertex : Gte → ℕ → Bool → Bool → Gte
ncd_vertex g v sf lm =
    let g1 = normal_color g v sf lm in
    let dimmed = zip (λ a m. a -ℤ m /ℤ pos 0x1000) (ir_vector g1) (modulated g1) in
    set_and_push g1 (towards_far g1 dimmed) sf lm

unfoldable pub cmd_ncds : Gte → ℕ → Gte
cmd_ncds g cmd = ncd_vertex (clear_flag g) 0 (sf_of cmd) (lm_of cmd)

unfoldable pub cmd_ncdt : Gte → ℕ → Gte
cmd_ncdt g cmd =
    let sf = sf_of cmd in
    let lm = lm_of cmd in
    ncd_vertex (ncd_vertex (ncd_vertex (clear_flag g) 0 sf lm) 1 sf lm) 2 sf lm

-- The body of NCCS for one vertex, and of the loops of NCT and NCCT.
unfoldable pub ncc_vertex : Gte → ℕ → Bool → Bool → Gte
ncc_vertex g v sf lm = let g1 = normal_color g v sf lm in set_and_push g1 (modulated g1) sf lm

unfoldable pub cmd_nccs : Gte → ℕ → Gte
cmd_nccs g cmd = ncc_vertex (clear_flag g) 0 (sf_of cmd) (lm_of cmd)

unfoldable pub cmd_nct : Gte → ℕ → Gte
cmd_nct g cmd =
    let sf = sf_of cmd in
    let lm = lm_of cmd in
    ncc_vertex (ncc_vertex (ncc_vertex (clear_flag g) 0 sf lm) 1 sf lm) 2 sf lm

unfoldable pub cmd_ncct : Gte → ℕ → Gte
cmd_ncct g cmd =
    let sf = sf_of cmd in
    let lm = lm_of cmd in
    ncc_vertex (ncc_vertex (ncc_vertex (clear_flag g) 0 sf lm) 1 sf lm) 2 sf lm

-- The first step of CC and CDP: the light colour of IR1-3 over the background.
unfoldable pub colour_of_ir : Gte → Bool → Bool → Gte
colour_of_ir g sf lm = mat_mul_vec g mat_lcm (background g) (ir_vector g) sf lm

unfoldable pub cmd_cc : Gte → ℕ → Gte
cmd_cc g cmd =
    let sf = sf_of cmd in
    let lm = lm_of cmd in
    let g1 = colour_of_ir (clear_flag g) sf lm in set_and_push g1 (modulated g1) sf lm

-- `m + IR0 * (FC - m / 0x1000)`.
abbrev pub blended : Gte → Vector → Vector
blended g m = zip (λ m f. m +ℤ ir g 0 *ℤ (f -ℤ m /ℤ pos 0x1000)) m (far_colour g)

unfoldable pub cmd_cdp : Gte → ℕ → Gte
cmd_cdp g cmd =
    let sf = sf_of cmd in
    let lm = lm_of cmd in
    let g1 = colour_of_ir (clear_flag g) sf lm in set_and_push g1 (blended g1 (modulated g1)) sf lm

unfoldable pub cmd_ncs : Gte → ℕ → Gte
cmd_ncs g cmd = push_mac (normal_color (clear_flag g) 0 (sf_of cmd) (lm_of cmd))

unfoldable pub cmd_dcpl : Gte → ℕ → Gte
cmd_dcpl g cmd =
    let g1 = clear_flag g in set_and_push g1 (blended g1 (modulated g1)) (sf_of cmd) (lm_of cmd)

-- One component of GPF: the registers are read after the components before it are stored.
abbrev pub scale : Gte → ℕ → Bool → Bool → Gte
scale g n sf lm = set_mac_ir g n (ir g 0 *ℤ ir g n) sf lm

unfoldable pub cmd_gpf : Gte → ℕ → Gte
cmd_gpf g cmd =
    let sf = sf_of cmd in
    let lm = lm_of cmd in push_mac (scale (scale (scale (clear_flag g) 1 sf lm) 2 sf lm) 3 sf lm)

-- One component of GPL.
abbrev pub accumulate : Gte → ℕ → Bool → Bool → Gte
accumulate g n sf lm =
    let shift = if sf then 12 else 0 in
    set_mac_ir g n (mac g n *ℤ pos (2 ^ shift) +ℤ ir g 0 *ℤ ir g n) sf lm

unfoldable pub cmd_gpl : Gte → ℕ → Gte
cmd_gpl g cmd =
    let sf = sf_of cmd in
    let lm = lm_of cmd in
    push_mac (accumulate (accumulate (accumulate (clear_flag g) 1 sf lm) 2 sf lm) 3 sf lm)
