-- ===== src/Cpu/Invariant/Coprocessor.antt =====
-- cpu.c and gte.c: `gte_execute` meets what the core relies on.
use psx_emulator_em_c.Base.{ℕ, ◌^◌, ◌<◌}
use psx_emulator_em_c.Gte.Execute.{gte_execute}
use psx_emulator_em_c.Gte.CommandKeeps.{gte_execute-IsGte}
use psx_emulator_em_c.Cpu.State.{Machine}
use psx_emulator_em_c.Cpu.Invariant.Defs.{IsMachine}

-- `gte_execute` of gte.c fills the place for it in what the core asks of its surroundings: any
-- interconnect whose loads answer within their widths, with the commands of gte.c, meets the
-- contract `IsMachine` that the invariant of the core rests on.
pub gte_execute-IsMachine :
    {S : Type 0} (m : Machine S)
    → ((s : S) (a : ℕ) → (m.load32 s a).0 < 2 ^ 32)
    → ((s : S) (a : ℕ) → (m.load16 s a).0 < 2 ^ 16)
    → ((s : S) (a : ℕ) → (m.load8 s a).0 < 2 ^ 8)
    → IsMachine (record m { gte_execute = gte_execute })
gte_execute-IsMachine m w h b = record {
  load32_word = w;
  load16_half = h;
  load8_byte = b;
  execute_gte = gte_execute-IsGte;
}
