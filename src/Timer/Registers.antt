-- ===== src/Timer/Registers.antt =====
-- timer.c: reads and writes of the registers.
use psx_emulator_em_c.Base.{ℕ, false, ltb, ◌==◌, if◌then◌else◌, u16, low_bits, set_bit, clear_bit}
use psx_emulator_em_c.Scheduler.{
  Scheduler, EventType, event_timer0, event_timer1, event_timer2, scheduler_cancel,
}
use psx_emulator_em_c.Timer.State.{
  tmode_irq_status, tmode_target_reached, tmode_overflow_reached, TimerUnit, Timers, unit_index,
  reg_offset, unit_at, put_unit,
}

-- `mode & ~(TMODE_TARGET_REACHED | TMODE_OVERFLOW_REACHED)`.
abbrev pub clear_sticky : ℕ → ℕ
clear_sticky m = clear_bit (clear_bit m tmode_target_reached) tmode_overflow_reached

-- A read of one register of a unit: reading the mode clears the sticky bits.
unfoldable pub unit_load : TimerUnit → ℕ → ℕ × TimerUnit
unit_load u reg =
    if reg == 0
    then (u.value, u)
    else if reg == 4
    then (u.mode, record u { mode = clear_sticky u.mode })
    else if reg == 8
    then (u.target, u)
    else (0, u)

unfoldable pub timers_load32 : Timers → ℕ → ℕ × Timers
unfolding unit_load
timers_load32 t offset =
    let idx = unit_index offset in
    if ltb 2 idx
    then (0, t)
    else let (val, u) = unit_load (unit_at t idx) (reg_offset offset) in (val, put_unit t idx u)

unfoldable pub timers_load16 : Timers → ℕ → ℕ × Timers
unfolding timers_load32
timers_load16 t offset = let (val, t') = timers_load32 t offset in (u16 val, t')

-- A write of one register of a unit.
unfoldable pub unit_store : TimerUnit → ℕ → ℕ → TimerUnit
unit_store u reg val =
    if reg == 0
    then record u { value = u16 val; frac_rem = 0 }
    else if reg == 4
    then record u {
      value = 0;
      frac_rem = 0;
      fired = false;
      sync_started = false;
      reset_pending = false;
      mode = set_bit (clear_sticky (low_bits val 13)) tmode_irq_status;
    }
    else if reg == 8
    then record u { target = u16 val }
    else u

abbrev pub timer_event : ℕ → EventType
timer_event idx = if idx == 0 then event_timer0 else if idx == 1 then event_timer1 else event_timer2

unfoldable pub timers_store32 : Timers → ℕ → ℕ → Scheduler → Timers × Scheduler
unfolding unit_store
timers_store32 t offset val sched =
    let idx = unit_index offset in
    let reg = reg_offset offset in
    if ltb 2 idx then (t, sched) else (
      put_unit t idx (unit_store (unit_at t idx) reg val),
      if reg == 4 then scheduler_cancel sched (timer_event idx) else sched,
    )

unfoldable pub timers_store16 : Timers → ℕ → ℕ → Scheduler → Timers × Scheduler
unfolding timers_store32
timers_store16 t offset val sched = timers_store32 t offset val sched
