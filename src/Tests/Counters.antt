-- ===== src/Tests/Counters.antt =====
-- Runs of the root counters and the scheduler.
use psx_emulator_em_c.Base.{ℕ, ◌+◌, ◌*◌, ◌≡◌, refl, arith, true, false, bit, test_bit, length}
use psx_emulator_em_c.Irq.{Irq, irq_init}
use psx_emulator_em_c.Scheduler.{
  Scheduler, event_cdrom_irq, event_at, scheduler_init, scheduler_schedule, scheduler_step,
}
use psx_emulator_em_c.Scheduler.{event_timer1}
use psx_emulator_em_c.Scheduler.Requests.{scheduler_step-requests}
use psx_emulator_em_c.Scheduler.Laws.{scheduler_step_lem}
use psx_emulator_em_c.Timer.State.{TimerUnit, timers_init, zero_unit, timer2_div8, tmode_irq_repeat}
use psx_emulator_em_c.Timer.Registers.{timers_load32, timers_store32}
use psx_emulator_em_c.Timer.Count.{Video, timer_ticks, timer_advance, timers_step}
use psx_emulator_em_c.Timer.Period.{timer_advance-period}
use psx_emulator_em_c.Timer.OneShot.{timer_advance-one_shot}
use psx_emulator_em_c.Timer.Divider.{timer_ticks-add}
use psx_emulator_em_c.Timer.Bounds.{IsValid, timers_init-IsValid, timers-IsValid}

-- A counter that resets at 3.
abbrev resetting : TimerUnit
resetting = record zero_unit { mode = 8; target = 3 }

timer_advance-period_example :
    let u' = (timer_advance 0 (2 * 4 + 3) (resetting, irq_init)).0 in
    (u'.value ≡ 3) × (u'.reset_pending ≡ true)
timer_advance-period_example =
    timer_advance-period 0 2 3 resetting irq_init refl refl (omega arith) (omega arith)
      (omega arith) refl (omega arith)

-- A counter that has raised its interrupt at the target.
timer_advance-one_shot_example :
    let (u', irq') =
      timer_advance 2 100 (record zero_unit { mode = 0x18; target = 3; fired = true }, irq_init) in
    (irq' ≡ irq_init) × (u'.fired ≡ true) × (test_bit u'.mode tmode_irq_repeat ≡ false)
timer_advance-one_shot_example =
    timer_advance-one_shot 2 100 (record zero_unit { mode = 0x18; target = 3; fired = true })
      irq_init refl refl

-- Twelve cycles in steps of 5 and 7 give one tick, and four are left over.
timer_ticks-add_example :
    let (ta, u1) = timer_ticks (record zero_unit { mode = 0x200 }) 2 5 0 0 in
    let (tb, u2) = timer_ticks u1 2 7 0 0 in
    let (t, u') = timer_ticks (record zero_unit { mode = 0x200 }) 2 12 0 0 in
    (t ≡ ta + tb) × (u'.frac_rem ≡ u2.frac_rem) × (8 * t + u'.frac_rem ≡ 12)
unfolding timer2_div8
timer_ticks-add_example =
    timer_ticks-add (record zero_unit { mode = 0x200 }) 5 7 0 0 refl (omega arith)

timers-IsValid_example :
    IsValid timers_init
    × ((offset : ℕ) → IsValid (timers_load32 timers_init offset).1)
    × ((offset val : ℕ) (sched : Scheduler)
        → IsValid (timers_store32 timers_init offset val sched).0)
    × ((cycles : ℕ) (w : Video) (irq : Irq) → IsValid (timers_step timers_init cycles w irq).0)
timers-IsValid_example = timers-IsValid timers_init timers_init-IsValid

-- The CD-ROM event in ten cycles.
abbrev waiting : Scheduler
waiting = scheduler_schedule scheduler_init event_cdrom_irq 10

scheduler_step_lem_example :
    let (s', fired, irq') = scheduler_step waiting 12 irq_init in
    (s'.current_cycle ≡ 12)
    × (bit fired 4 ≡ 1)
    × (event_at s' event_cdrom_irq
        ≡ record { fire_at = 10; type = event_cdrom_irq; active = false })
    × (length s'.events ≡ 13)
unfolding scheduler_schedule scheduler_init scheduler_step
scheduler_step_lem_example = scheduler_step_lem waiting 12 irq_init event_cdrom_irq refl

-- The event of the second counter is due, and raises line 5.
scheduler_step-requests_example :
    let (s', fired, irq') =
      scheduler_step (scheduler_schedule scheduler_init event_timer1 10) 12 irq_init in
    (bit irq'.status 5 ≡ 1) × (irq'.mask ≡ irq_init.mask)
unfolding scheduler_schedule scheduler_init scheduler_step
scheduler_step-requests_example =
    scheduler_step-requests (scheduler_schedule scheduler_init event_timer1 10) 12 irq_init 5
