-- ===== src/Gte/Flag.antt =====
-- gte.c: FLAG, and the registers that saturate.
use psx_emulator_em_c.Base.{
  ◌&◌, ℕ, zero, suc, ◌<◌, ◌≡◌, refl, ap, Bool, false, ◌||◌, List, [], ◌∷◌, All, ◌==◌, if◌then◌else◌,
  set, low_bits, pos_part, neg_part, ◌≤◌, ◌^◌, ℤ, Bool-cases, inl, inr,
}
use psx_emulator_em_c.Gte.{Gte, put_cr}
use psx_emulator_em_c.Gte.Commands.{
  clear_flag, cmd_rtps, cmd_rtpt, cmd_nclip, cmd_avsz3, cmd_avsz4, cmd_op, cmd_sqr, cmd_mvmva,
}
use psx_emulator_em_c.Gte.Colour.{
  cmd_dpcs, cmd_dpct, cmd_intpl, cmd_ncds, cmd_ncdt, cmd_nccs, cmd_nct, cmd_ncct, cmd_cc, cmd_cdp,
  cmd_ncs, cmd_dcpl, cmd_gpf, cmd_gpl,
}
use psx_emulator_em_c.Gte.Execute.{Command, commands, select, gte_execute}

set-set : (xs : List ℕ) (i v w : ℕ) → set (set xs i v) i w ≡ set xs i w
set-set [] i v w = refl
set-set (x ∷ xs) zero v w = refl
set-set (x ∷ xs) (suc i) v w = ap (λ (ys : List ℕ). x ∷ ys) (set-set xs i v w)

-- The number is a label of the table.
abbrev pub is_label : List (ℕ × Command) → ℕ → Bool
is_label [] op = false
is_label (c ∷ cs) op = op == c.0 || is_label cs op

-- The value fits an `int16_t`.
abbrev FitsInt16 : ℤ → Type 0
FitsInt16 a = (pos_part a < 2 ^ 15) × (neg_part a ≤ 2 ^ 15)

module _ (g : Gte) (w cmd : ℕ) where
  cleared : clear_flag (put_cr g 31 w) ≡ clear_flag g
  cleared = ap (λ (l : List ℕ). record g { cr = l }) (set-set g.cr 31 w 0)

  -- The handler starts by clearing FLAG.
  abbrev Clears : Command → Type 0
  Clears c = c (put_cr g 31 w) cmd ≡ c g cmd

  clear-All : All (λ (c : ℕ × Command). Clears c.1) commands
  unfolding cmd_rtps cmd_rtpt cmd_nclip cmd_avsz3 cmd_avsz4 cmd_op cmd_sqr cmd_mvmva cmd_dpcs
      cmd_dpct cmd_intpl cmd_ncds cmd_ncdt cmd_nccs cmd_nct cmd_ncct cmd_cc cmd_cdp cmd_ncs cmd_dcpl
      cmd_gpf cmd_gpl
  clear-All = rw cleared (
      refl & refl & refl & refl & refl & refl & refl & refl & refl & refl & refl & refl & refl
      & refl & refl & refl & refl & refl & refl & refl & refl & refl & tt)

  select-clear :
      (cs : List (ℕ × Command)) (op : ℕ)
      → All (λ (c : ℕ × Command). Clears c.1) cs
      → select cs op (put_cr g 31 w) cmd
        ≡ (if is_label cs op then select cs op g cmd else put_cr g 31 w)
  unfolding select
  select-clear [] op h = refl
  select-clear (c ∷ cs) op h = elim (Bool-cases (op == c.0)) [
    | inl same ↦ rw same h.0
    | inr other ↦ rw other (select-clear cs op h.1)
  ]

-- What FLAG held before has no influence on a command: over any former value w of FLAG a command
-- word with a label of the table has the outcome that it has without it, and every other word
-- leaves all registers as they are.
pub gte_execute-flag :
    (g : Gte) (w cmd : ℕ)
    → gte_execute (put_cr g 31 w) cmd
      ≡ (if is_label commands (low_bits cmd 6) then gte_execute g cmd else put_cr g 31 w)
unfolding gte_execute
gte_execute-flag g w cmd = select-clear g w cmd commands (low_bits cmd 6) (clear-All g w cmd)
