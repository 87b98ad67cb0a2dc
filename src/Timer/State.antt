-- ===== src/Timer/State.antt =====
-- timer.h: the units and the bits of their mode; timer.c: `timers_init` and the helpers.
use psx_emulator_em_c.Base.{
  ℕ, Bool, false, ◌||◌, List, [], ◌∷◌, ◌==◌, if◌then◌else◌, get_or, set, ◌>>◌, low_bits,
}
use psx_emulator_em_c.Irq.{IrqFlag, irq_timer0, irq_timer1, irq_timer2}

-- The bits of the mode register, by position. `TMODE_SYNC_MODE` takes bits 1 and 2, and
-- `TMODE_CLK_SRC` bits 8 and 9.
abbrev pub tmode_sync_enable : ℕ
tmode_sync_enable = 0

abbrev pub tmode_reset_target : ℕ
tmode_reset_target = 3

abbrev pub tmode_irq_target : ℕ
tmode_irq_target = 4

abbrev pub tmode_irq_overflow : ℕ
tmode_irq_overflow = 5

abbrev pub tmode_irq_repeat : ℕ
tmode_irq_repeat = 6

abbrev pub tmode_irq_toggle : ℕ
tmode_irq_toggle = 7

abbrev pub tmode_irq_status : ℕ
tmode_irq_status = 10

abbrev pub tmode_target_reached : ℕ
tmode_target_reached = 11

abbrev pub tmode_overflow_reached : ℕ
tmode_overflow_reached = 12

-- `TimerUnit`.
pub record TimerUnit : Type 0 where
  pub value : ℕ
  pub mode : ℕ
  pub target : ℕ
  pub frac_rem : ℕ
  pub fired : Bool
  pub sync_started : Bool
  pub reset_pending : Bool

-- `Timers`: `units[3]`.
pub record Timers : Type 0 where
  pub units : List TimerUnit

abbrev pub zero_unit : TimerUnit
zero_unit = record {
  value = 0;
  mode = 0;
  target = 0;
  frac_rem = 0;
  fired = false;
  sync_started = false;
  reset_pending = false;
}

unfoldable pub timers_init : Timers
timers_init = record { units = zero_unit ∷ zero_unit ∷ zero_unit ∷ [] }

abbrev pub clock_source : TimerUnit → ℕ
clock_source u = low_bits (u.mode >> 8) 2

abbrev pub sync_mode : TimerUnit → ℕ
sync_mode u = low_bits (u.mode >> 1) 2

unfoldable pub timer2_div8 : TimerUnit → Bool
timer2_div8 u = clock_source u == 2 || clock_source u == 3

unfoldable pub timer_irq_flag : ℕ → IrqFlag
timer_irq_flag idx = if idx == 0 then irq_timer0 else if idx == 1 then irq_timer1 else irq_timer2

abbrev pub unit_index : ℕ → ℕ
unit_index offset = offset >> 4

abbrev pub reg_offset : ℕ → ℕ
reg_offset offset = low_bits offset 4

abbrev pub unit_at : Timers → ℕ → TimerUnit
unit_at t idx = get_or t.units idx zero_unit

abbrev pub put_unit : Timers → ℕ → TimerUnit → Timers
put_unit t idx u = record { units = set t.units idx u }
