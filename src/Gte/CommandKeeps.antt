-- ===== src/Gte/CommandKeeps.antt =====
-- gte.c: every command keeps a register file of words, and writes the result registers and FLAG
-- only.
use psx_emulator_em_c.Base.{
  ◌&◌, ℕ, ◌<◌, ◌≡◌, refl, arith, Bool, true, false, All, List, [], ◌∷◌, ◌==◌, low_bits, if-cases,
  ◌>>◌,
}
use psx_emulator_em_c.Gte.{Gte, dr_at, cr_at}
use psx_emulator_em_c.Gte.Fields.{Vector, zero_vector}
use psx_emulator_em_c.Gte.Commands.{
  clear_flag, cmd_rtps, cmd_rtpt, cmd_nclip, cmd_avsz3, cmd_avsz4, set_mac_irs, cmd_op, cmd_sqr,
  cmd_mvmva,
}
use psx_emulator_em_c.Gte.Colour.{
  push_mac, set_and_push, depth_cue, cmd_dpcs, cmd_dpct, cmd_intpl, normal_color, ncd_vertex,
  cmd_ncds, cmd_ncdt, ncc_vertex, cmd_nccs, cmd_nct, cmd_ncct, colour_of_ir, cmd_cc, cmd_cdp,
  cmd_ncs, cmd_dcpl, cmd_gpf, cmd_gpl,
}
use psx_emulator_em_c.Gte.Execute.{Command, commands, select, gte_execute}
use psx_emulator_em_c.Gte.Words.{IsGte}
use psx_emulator_em_c.Gte.Keeps.{From, put_flag-From, set_mac0-From, put_depth-From, push_rgb-From}
use psx_emulator_em_c.Gte.TransformKeeps.{
  set_mac_ir-From, mat_mul_vec-From, mat_mul_vec_buggy-From, gte_rtps-From,
}

module _ {g0 : Gte} {i j : ℕ} (hi : i < 7) (hj : j < 31) where
  clear_flag-From : {g : Gte} → From g0 i j g → From g0 i j (clear_flag g)
  clear_flag-From h = put_flag-From hi hj h 0 (omega arith)

  set_mac_irs-From :
      {g : Gte} (h : From g0 i j g) (m : Vector) (sf lm : Bool)
      → From g0 i j (set_mac_irs g m sf lm)
  unfolding set_mac_irs
  set_mac_irs-From h m sf lm =
      set_mac_ir-From hi hj
        (set_mac_ir-From hi hj (set_mac_ir-From hi hj h 1 m.x sf lm) 2 m.y sf lm) 3 m.z sf lm

  -- Colours.
  push_mac-From : {g : Gte} → From g0 i j g → From g0 i j (push_mac g)
  unfolding push_mac
  push_mac-From h = push_rgb-From hi hj h _ _ _

  set_and_push-From :
      {g : Gte} (h : From g0 i j g) (m : Vector) (sf lm : Bool)
      → From g0 i j (set_and_push g m sf lm)
  unfolding set_and_push
  set_and_push-From h m sf lm = push_mac-From (set_mac_irs-From h m sf lm)

  depth_cue-From : {g : Gte} (h : From g0 i j g) (sf lm : Bool) → From g0 i j (depth_cue g sf lm)
  unfolding depth_cue
  depth_cue-From h sf lm = set_and_push-From h _ sf lm

  normal_color-From :
      {g : Gte} (h : From g0 i j g) (v : ℕ) (sf lm : Bool) → From g0 i j (normal_color g v sf lm)
  unfolding normal_color
  normal_color-From h v sf lm =
      mat_mul_vec-From hi hj (mat_mul_vec-From hi hj h _ zero_vector _ sf lm) _ _ _ sf lm

  ncd_vertex-From :
      {g : Gte} (h : From g0 i j g) (v : ℕ) (sf lm : Bool) → From g0 i j (ncd_vertex g v sf lm)
  unfolding ncd_vertex
  ncd_vertex-From h v sf lm = set_and_push-From (normal_color-From h v sf lm) _ sf lm

  ncc_vertex-From :
      {g : Gte} (h : From g0 i j g) (v : ℕ) (sf lm : Bool) → From g0 i j (ncc_vertex g v sf lm)
  unfolding ncc_vertex
  ncc_vertex-From h v sf lm = set_and_push-From (normal_color-From h v sf lm) _ sf lm

  colour_of_ir-From :
      {g : Gte} (h : From g0 i j g) (sf lm : Bool) → From g0 i j (colour_of_ir g sf lm)
  unfolding colour_of_ir
  colour_of_ir-From h sf lm = mat_mul_vec-From hi hj h _ _ _ sf lm

-- A handler keeps the register file, whatever command word calls it.
abbrev Keeping : (g0 : Gte) (i j : ℕ) → Command → Type 0
Keeping g0 i j c = (g : Gte) (cmd : ℕ) → From g0 i j g → From g0 i j (c g cmd)

module _ (g0 : Gte) (i j : ℕ) (hi : i < 7) (hj : j < 31) where
  coordinate_commands :
      Keeping g0 i j cmd_rtps
      × Keeping g0 i j cmd_rtpt
      × Keeping g0 i j cmd_nclip
      × Keeping g0 i j cmd_avsz3
      × Keeping g0 i j cmd_avsz4
      × Keeping g0 i j cmd_op
      × Keeping g0 i j cmd_sqr
      × Keeping g0 i j cmd_mvmva
  unfolding cmd_rtps cmd_rtpt cmd_nclip cmd_avsz3 cmd_avsz4 cmd_op cmd_sqr cmd_mvmva
  coordinate_commands = (
    λ g cmd h. gte_rtps-From hi hj (clear_flag-From hi hj h) 0 _ _ true,
    λ g cmd h.
        gte_rtps-From hi hj
          (gte_rtps-From hi hj (gte_rtps-From hi hj (clear_flag-From hi hj h) 0 _ _ false) 1 _ _
            false)
          2 _ _ true,
    λ g cmd h. set_mac0-From hi hj (clear_flag-From hi hj h) _,
    λ g cmd h.
        put_depth-From hi hj (set_mac0-From hi hj (clear_flag-From hi hj h) _) 7 _ (omega arith),
    λ g cmd h.
        put_depth-From hi hj (set_mac0-From hi hj (clear_flag-From hi hj h) _) 7 _ (omega arith),
    λ g cmd h. set_mac_irs-From hi hj (clear_flag-From hi hj h) _ _ _,
    λ g cmd h.
        set_mac_ir-From hi hj
          (set_mac_ir-From hi hj (set_mac_ir-From hi hj (clear_flag-From hi hj h) 1 _ _ _) 2 _ _ _)
          3 _ _ _,
    λ g cmd h.
        if-cases (From g0 i j) (low_bits (cmd >> 13) 2 == 2)
          (mat_mul_vec_buggy-From hi hj (clear_flag-From hi hj h) _ _ _ _ _)
          (mat_mul_vec-From hi hj (clear_flag-From hi hj h) _ _ _ _ _),
  )

  colour_commands :
      Keeping g0 i j cmd_dpcs
      × Keeping g0 i j cmd_dpct
      × Keeping g0 i j cmd_intpl
      × Keeping g0 i j cmd_ncds
      × Keeping g0 i j cmd_ncdt
      × Keeping g0 i j cmd_nccs
      × Keeping g0 i j cmd_nct
      × Keeping g0 i j cmd_ncct
      × Keeping g0 i j cmd_cc
      × Keeping g0 i j cmd_cdp
      × Keeping g0 i j cmd_ncs
      × Keeping g0 i j cmd_dcpl
      × Keeping g0 i j cmd_gpf
      × Keeping g0 i j cmd_gpl
  unfolding cmd_dpcs cmd_dpct cmd_intpl cmd_ncds cmd_ncdt cmd_nccs cmd_nct cmd_ncct cmd_cc cmd_cdp
      cmd_ncs cmd_dcpl cmd_gpf cmd_gpl
  colour_commands = (
    λ g cmd h. depth_cue-From hi hj (clear_flag-From hi hj h) _ _,
    λ g cmd h.
        depth_cue-From hi hj
          (depth_cue-From hi hj (depth_cue-From hi hj (clear_flag-From hi hj h) _ _) _ _) _ _,
    λ g cmd h. set_and_push-From hi hj (clear_flag-From hi hj h) _ _ _,
    λ g cmd h. ncd_vertex-From hi hj (clear_flag-From hi hj h) 0 _ _,
    λ g cmd h.
        ncd_vertex-From hi hj
          (ncd_vertex-From hi hj (ncd_vertex-From hi hj (clear_flag-From hi hj h) 0 _ _) 1 _ _) 2 _
          _,
    λ g cmd h. ncc_vertex-From hi hj (clear_flag-From hi hj h) 0 _ _,
    λ g cmd h.
        ncc_vertex-From hi hj
          (ncc_vertex-From hi hj (ncc_vertex-From hi hj (clear_flag-From hi hj h) 0 _ _) 1 _ _) 2 _
          _,
    λ g cmd h.
        ncc_vertex-From hi hj
          (ncc_vertex-From hi hj (ncc_vertex-From hi hj (clear_flag-From hi hj h) 0 _ _) 1 _ _) 2 _
          _,
    λ g cmd h.
        set_and_push-From hi hj (colour_of_ir-From hi hj (clear_flag-From hi hj h) _ _) _ _ _,
    λ g cmd h.
        set_and_push-From hi hj (colour_of_ir-From hi hj (clear_flag-From hi hj h) _ _) _ _ _,
    λ g cmd h. push_mac-From hi hj (normal_color-From hi hj (clear_flag-From hi hj h) 0 _ _),
    λ g cmd h. set_and_push-From hi hj (clear_flag-From hi hj h) _ _ _,
    λ g cmd h. push_mac-From hi hj (
        set_mac_ir-From hi hj
          (set_mac_ir-From hi hj (set_mac_ir-From hi hj (clear_flag-From hi hj h) 1 _ _ _) 2 _ _ _)
          3 _ _ _),
    λ g cmd h. push_mac-From hi hj (
        set_mac_ir-From hi hj
          (set_mac_ir-From hi hj (set_mac_ir-From hi hj (clear_flag-From hi hj h) 1 _ _ _) 2 _ _ _)
          3 _ _ _),
  )

  -- Every handler of a table keeps the register file.
  abbrev AllKeep : List (ℕ × Command) → Type 0
  AllKeep = All (λ (c : ℕ × Command). Keeping g0 i j c.1)

  select-From : (cs : List (ℕ × Command)) (op : ℕ) → AllKeep cs → Keeping g0 i j (select cs op)
  unfolding select
  select-From [] op k g cmd h = h
  select-From (c ∷ cs) op k g cmd h =
      if-cases (From g0 i j) (op == c.0) (k.0 g cmd h) (select-From cs op k.1 g cmd h)

  commands-AllKeep : AllKeep commands
  commands-AllKeep =
      let c = coordinate_commands in
      let d = colour_commands in
      c.0 & c.2 & c.5 & d.0 & d.2 & c.7 & d.3 & d.9 & d.4 & d.5 & d.8 & d.10 & d.6 & c.6 & d.11
      & d.1 & c.3 & c.4 & c.1 & d.12 & d.13 & d.7 & tt

  execute-From : Keeping g0 i j gte_execute
  unfolding gte_execute
  execute-From g cmd h = select-From commands (low_bits cmd 6) commands-AllKeep g cmd h

-- Over a register file of 32 and 32 words every command, and every other command word, leaves
-- such a register file.
pub gte_execute-IsGte : (g : Gte) (cmd : ℕ) → IsGte g → IsGte (gte_execute g cmd)
gte_execute-IsGte g cmd h =
    (execute-From g 0 0 (omega arith) (omega arith) g cmd
      (record { valid = h; dr_kept = refl; cr_kept = refl })).valid

-- Over a register file of 32 and 32 words, whatever the command word, the input registers keep
-- their contents: the vectors and RGBC, data registers 0 to 6, and every control register but
-- FLAG.
pub gte_execute-inputs :
    (g : Gte) (cmd i j : ℕ)
    → IsGte g
    → i < 7
    → j < 31
    → (dr_at (gte_execute g cmd) i ≡ dr_at g i) × (cr_at (gte_execute g cmd) j ≡ cr_at g j)
gte_execute-inputs g cmd i j h hi hj =
    let k = execute-From g i j hi hj g cmd (record { valid = h; dr_kept = refl; cr_kept = refl }) in
    (k.dr_kept, k.cr_kept)
