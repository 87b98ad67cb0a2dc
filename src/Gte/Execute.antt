-- ===== src/Gte/Execute.antt =====
-- gte.c: `gte_execute`, the dispatch of the commands, without its trace.
use psx_emulator_em_c.Base.{ℕ, List, [], ◌∷◌, ◌==◌, if◌then◌else◌, low_bits}
use psx_emulator_em_c.Gte.{Gte}
use psx_emulator_em_c.Gte.Commands.{
  cmd_rtps, cmd_rtpt, cmd_nclip, cmd_avsz3, cmd_avsz4, cmd_op, cmd_sqr, cmd_mvmva,
}
use psx_emulator_em_c.Gte.Colour.{
  cmd_dpcs, cmd_dpct, cmd_intpl, cmd_ncds, cmd_ncdt, cmd_nccs, cmd_nct, cmd_ncct, cmd_cc, cmd_cdp,
  cmd_ncs, cmd_dcpl, cmd_gpf, cmd_gpl,
}

abbrev pub Command : Type 0
Command = Gte → ℕ → Gte

-- The `case` labels, in their order.
abbrev pub commands : List (ℕ × Command)
commands =
    (0x01, cmd_rtps)
    ∷ (0x06, cmd_nclip)
    ∷ (0x0c, cmd_op)
    ∷ (0x10, cmd_dpcs)
    ∷ (0x11, cmd_intpl)
    ∷ (0x12, cmd_mvmva)
    ∷ (0x13, cmd_ncds)
    ∷ (0x14, cmd_cdp)
    ∷ (0x16, cmd_ncdt)
    ∷ (0x1b, cmd_nccs)
    ∷ (0x1c, cmd_cc)
    ∷ (0x1e, cmd_ncs)
    ∷ (0x20, cmd_nct)
    ∷ (0x28, cmd_sqr)
    ∷ (0x29, cmd_dcpl)
    ∷ (0x2a, cmd_dpct)
    ∷ (0x2d, cmd_avsz3)
    ∷ (0x2e, cmd_avsz4)
    ∷ (0x30, cmd_rtpt)
    ∷ (0x3d, cmd_gpf)
    ∷ (0x3e, cmd_gpl)
    ∷ (0x3f, cmd_ncct)
    ∷ []

-- The `default` label leaves the state as it is.
unfoldable pub select : List (ℕ × Command) → ℕ → Command
select [] op g cmd = g
select (c ∷ cs) op g cmd = if op == c.0 then c.1 g cmd else select cs op g cmd

unfoldable pub gte_execute : Gte → ℕ → Gte
gte_execute g cmd = select commands (low_bits cmd 6) g cmd
