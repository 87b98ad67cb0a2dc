-- ===== src/Timer/Count.antt =====
-- timer.c: interrupts, clock sources, synchronisation and the count itself.
use psx_emulator_em_c.Base.{
  ℕ, zero, suc, ◌+◌, Bool, true, false, ◌&&◌, ◌||◌, not, List, [], ◌∷◌, ◌==◌, ◌!=◌, if◌then◌else◌,
  u16, u32, ◌>>◌, low_bits, test_bit, set_bit, clear_bit,
}
use psx_emulator_em_c.Irq.{Irq, irq_assert}
use psx_emulator_em_c.Timer.State.{
  tmode_sync_enable, tmode_reset_target, tmode_irq_target, tmode_irq_overflow, tmode_irq_repeat,
  tmode_irq_toggle, tmode_irq_status, tmode_target_reached, tmode_overflow_reached, TimerUnit,
  Timers, clock_source, sync_mode, timer2_div8, timer_irq_flag,
}

-- In toggle mode the status bit flips at each event, and a request is raised as it goes low. In
-- pulse mode the bit goes low and high again, and a request is raised each time.
unfoldable pub fire_irq : TimerUnit → ℕ → Irq → TimerUnit × Irq
fire_irq u idx irq =
    if not (test_bit u.mode tmode_irq_repeat) && u.fired
    then (u, irq)
    else if test_bit u.mode tmode_irq_toggle
    then (if test_bit u.mode tmode_irq_status
        then (
          record u { mode = clear_bit u.mode tmode_irq_status; fired = true },
          irq_assert irq (timer_irq_flag idx),
        )
        else (record u { mode = set_bit u.mode tmode_irq_status }, irq))
    else (
      record u {
        mode = set_bit (clear_bit u.mode tmode_irq_status) tmode_irq_status;
        fired = true;
      },
      irq_assert irq (timer_irq_flag idx),
    )

unfoldable pub external_clock_selected : TimerUnit → ℕ → Bool
external_clock_selected u idx = (idx == 0 || idx == 1) && test_bit (clock_source u) 0

unfoldable pub timer_ticks : TimerUnit → ℕ → ℕ → ℕ → ℕ → ℕ × TimerUnit
unfolding external_clock_selected timer2_div8
timer_ticks u idx cycles dotclock_ticks hblank_count =
    if idx == 0 && external_clock_selected u idx
    then (dotclock_ticks, u)
    else if idx == 1 && external_clock_selected u idx
    then (hblank_count, u)
    else if idx == 2 && timer2_div8 u
    then (let total = u32 (u.frac_rem + cycles) in
        (total >> 3, record u { frac_rem = low_bits total 3 }))
    else (cycles, record u { frac_rem = 0 })

unfoldable pub apply_sync_period : TimerUnit → ℕ → ℕ → Bool → Bool → ℕ
apply_sync_period u idx ticks in_hblank in_vblank =
    if not (test_bit u.mode tmode_sync_enable)
    then ticks
    else if idx == 2
    then (if sync_mode u == 0 || sync_mode u == 3 then 0 else ticks)
    else let in_sync_period = if idx == 0 then in_hblank else in_vblank in
      if sync_mode u == 0
      then (if in_sync_period then 0 else ticks)
      else if sync_mode u == 1
      then ticks
      else if sync_mode u == 2
      then (if in_sync_period then ticks else 0)
      else if u.sync_started
      then ticks
      else 0

unfoldable pub apply_sync_edge : TimerUnit → ℕ → Bool → TimerUnit
apply_sync_edge u idx sync_started =
    if not (test_bit u.mode tmode_sync_enable) || idx == 2 || not sync_started
    then u
    else if sync_mode u == 1 || sync_mode u == 2
    then record u { value = 0; reset_pending = false }
    else if sync_mode u == 3
    then record u { sync_started = true }
    else u

-- What a tick does once the counter has gone up and equals the target.
unfoldable pub on_target : TimerUnit → ℕ → Irq → TimerUnit × Irq
unfolding fire_irq
on_target u idx irq =
    let u = record u { mode = set_bit u.mode tmode_target_reached } in
    let (u, irq) = if test_bit u.mode tmode_irq_target then fire_irq u idx irq else (u, irq) in
    (if test_bit u.mode tmode_reset_target then record u { reset_pending = true } else u, irq)

-- What a tick does once the counter has wrapped.
unfoldable pub on_overflow : TimerUnit → ℕ → Irq → TimerUnit × Irq
unfolding fire_irq
on_overflow u idx irq =
    let u = record u { mode = set_bit u.mode tmode_overflow_reached } in
    if test_bit u.mode tmode_irq_overflow then fire_irq u idx irq else (u, irq)

-- A tick that counts.
unfoldable pub count_up : ℕ → TimerUnit → Irq → TimerUnit × Irq
unfolding on_target on_overflow
count_up idx u irq =
    let old_value = u.value in
    let u = record u { value = u16 (u.value + 1) } in
    let (u, irq) = if u.value == u.target then on_target u idx irq else (u, irq) in
    if old_value == 0xffff then on_overflow u idx irq else (u, irq)

-- One round of the loop of `timer_advance`.
unfoldable pub timer_tick : ℕ → TimerUnit × Irq → TimerUnit × Irq
unfolding count_up
timer_tick idx (u, irq) =
    if u.reset_pending
    then (record u { value = 0; reset_pending = false }, irq)
    else count_up idx u irq

unfoldable pub timer_advance : ℕ → ℕ → TimerUnit × Irq → TimerUnit × Irq
timer_advance idx zero s = s
timer_advance idx (suc ticks) s = timer_advance idx ticks (timer_tick idx s)

-- The arguments of `timers_step` that describe the video signal.
pub record Video : Type 0 where
  pub dotclock_ticks : ℕ
  pub hblank_count : ℕ
  pub in_hblank : Bool
  pub vblank_started : Bool
  pub in_vblank : Bool

-- One round of the loop of `timers_step`.
unfoldable pub unit_step : ℕ → ℕ → Video → TimerUnit × Irq → TimerUnit × Irq
unfolding timer_ticks apply_sync_period timer_advance apply_sync_edge
unit_step idx cycles v (u, irq) =
    let (ticks, u) = timer_ticks u idx cycles v.dotclock_ticks v.hblank_count in
    let ticks = apply_sync_period u idx ticks v.in_hblank v.in_vblank in
    let (u, irq) = timer_advance idx ticks (u, irq) in
    let sync_edge = if idx == 0 then v.hblank_count != 0 else v.vblank_started in
    (apply_sync_edge u idx sync_edge, irq)

unfoldable pub units_step : ℕ → List TimerUnit → ℕ → Video → Irq → List TimerUnit × Irq
unfolding unit_step
units_step idx [] cycles v irq = ([], irq)
units_step idx (u ∷ us) cycles v irq =
    let (u', irq') = unit_step idx cycles v (u, irq) in
    let (us', irq'') = units_step (suc idx) us cycles v irq' in (u' ∷ us', irq'')

-- The scheduler is passed to `timers_step` and not used.
unfoldable pub timers_step : Timers → ℕ → Video → Irq → Timers × Irq
unfolding units_step
timers_step t cycles v irq =
    let (units, irq') = units_step 0 t.units cycles v irq in (record { units = units }, irq')
