-- ===== src/Timer/Bounds.antt =====
-- The registers of the root counters keep their widths.
use psx_emulator_em_c.Base.{
  ℕ, zero, suc, ◌^◌, ◌<◌, ◌≡◌, refl, ap, ◌∙◌, arith, Bool, true, false, ◌&&◌, ◌||◌, not, List, [],
  ◌∷◌, length, set, All, All-get_or, All-set, length-set, ltb, ◌==◌, ◌!=◌, if◌then◌else◌, if-cases,
  ◌>>◌, low_bits, test_bit, set_bit,
}
use psx_emulator_em_c.Irq.{Irq}
use psx_emulator_em_c.Scheduler.{Scheduler}
use psx_emulator_em_c.Timer.State.{
  TimerUnit, Timers, zero_unit, timers_init, timer2_div8, unit_at, unit_index, reg_offset,
}
use psx_emulator_em_c.Timer.Registers.{
  unit_load, unit_store, timers_load32, timers_store32, clear_sticky,
}
use psx_emulator_em_c.Timer.Count.{
  Video, timer_ticks, apply_sync_period, apply_sync_edge, timer_tick, timer_advance, unit_step,
  units_step, timers_step, external_clock_selected,
}
use psx_emulator_em_c.Timer.Tick.{Same, timer_tick-Same, moved, counted}

-- Value, mode and target are `uint16_t`, and the cycles left over are fewer than 8.
record UnitIsValid (u : TimerUnit) : Type 0 where
  value : u.value < 2 ^ 16
  mode : u.mode < 2 ^ 16
  target : u.target < 2 ^ 16
  frac_rem : u.frac_rem < 8

-- Three units, each with a value, a mode and a target of 16 bits and fewer than 8 cycles left over.
pub record IsValid (t : Timers) : Type 0 where
  units : length t.units ≡ 3
  all : All UnitIsValid t.units

clear_sticky-lt : (m : ℕ) → m < 2 ^ 16 → clear_sticky m < 2 ^ 16
clear_sticky-lt m h = omega arith

unit_load-IsValid : (u : TimerUnit) (reg : ℕ) → UnitIsValid u → UnitIsValid (unit_load u reg).1
unfolding unit_load
unit_load-IsValid u reg v =
    let P = λ (r : ℕ × TimerUnit). UnitIsValid r.1 in
    if-cases P (reg == 0) v (
      if-cases P (reg == 4)
        (record {
          value = v.value;
          mode = clear_sticky-lt u.mode v.mode;
          target = v.target;
          frac_rem = v.frac_rem;
        })
        (if-cases P (reg == 8) v v))

stored_mode-lt : (val : ℕ) → set_bit (clear_sticky (low_bits val 13)) 10 < 2 ^ 16
stored_mode-lt val = omega arith

unit_store-IsValid :
    (u : TimerUnit) (reg val : ℕ) → UnitIsValid u → UnitIsValid (unit_store u reg val)
unfolding unit_store
unit_store-IsValid u reg val v =
    if-cases UnitIsValid (reg == 0)
      (record { value = omega arith; mode = v.mode; target = v.target; frac_rem = omega arith })
      (if-cases UnitIsValid (reg == 4)
        (record {
          value = omega arith;
          mode = stored_mode-lt val;
          target = v.target;
          frac_rem = omega arith;
        })
        (if-cases UnitIsValid (reg == 8)
          (record { value = v.value; mode = v.mode; target = omega arith; frac_rem = v.frac_rem })
          v))

zero_unit-IsValid : UnitIsValid zero_unit
zero_unit-IsValid = record {
  value = omega arith;
  mode = omega arith;
  target = omega arith;
  frac_rem = omega arith;
}

put_unit-IsValid :
    (t : Timers) (idx : ℕ) (u : TimerUnit)
    → IsValid t
    → UnitIsValid u
    → IsValid (record { units = set t.units idx u })
put_unit-IsValid t idx u v h = record {
  units = length-set t.units idx u ∙ v.units;
  all = All-set UnitIsValid t.units idx u v.all h;
}

unit_at-IsValid : (t : Timers) (idx : ℕ) → IsValid t → UnitIsValid (unit_at t idx)
unit_at-IsValid t idx v = All-get_or UnitIsValid t.units idx zero_unit v.all zero_unit-IsValid

load-IsValid : (t : Timers) (offset : ℕ) → IsValid t → IsValid (timers_load32 t offset).1
unfolding timers_load32
load-IsValid t offset v =
    let idx = unit_index offset in
    if-cases (λ (r : ℕ × Timers). IsValid r.1) (ltb 2 idx) v
      (put_unit-IsValid t idx (unit_load (unit_at t idx) (reg_offset offset)).1 v
        (unit_load-IsValid (unit_at t idx) (reg_offset offset) (unit_at-IsValid t idx v)))

store-IsValid :
    (t : Timers) (offset val : ℕ) (sched : Scheduler)
    → IsValid t
    → IsValid (timers_store32 t offset val sched).0
unfolding timers_store32
store-IsValid t offset val sched v =
    let idx = unit_index offset in
    if-cases (λ (r : Timers × Scheduler). IsValid r.0) (ltb 2 idx) v
      (put_unit-IsValid t idx (unit_store (unit_at t idx) (reg_offset offset) val) v
        (unit_store-IsValid (unit_at t idx) (reg_offset offset) val (unit_at-IsValid t idx v)))

moved-IsValid :
    (u w : TimerUnit) (b : Bool)
    → UnitIsValid u
    → Same (if b then moved u 0 false else counted u) w
    → UnitIsValid w
moved-IsValid u w true v s = record {
  value = omega (arith, s.value);
  mode = s.mode_half;
  target = omega (arith, s.target, v.target);
  frac_rem = omega (arith, s.frac_rem, v.frac_rem);
}
moved-IsValid u w false v s = record {
  value = omega (arith, s.value);
  mode = s.mode_half;
  target = omega (arith, s.target, v.target);
  frac_rem = omega (arith, s.frac_rem, v.frac_rem);
}

advance-IsValid :
    (idx n : ℕ) (u : TimerUnit) (irq : Irq)
    → UnitIsValid u
    → UnitIsValid (timer_advance idx n (u, irq)).0
unfolding timer_advance
advance-IsValid idx zero u irq v = v
advance-IsValid idx (suc n) u irq v =
    let r = timer_tick idx (u, irq) in
    advance-IsValid idx n r.0 r.1
      (moved-IsValid u r.0 u.reset_pending v (timer_tick-Same u idx irq v.mode))

timer_ticks-IsValid :
    (u : TimerUnit) (idx cycles dot hblank : ℕ)
    → UnitIsValid u
    → UnitIsValid (timer_ticks u idx cycles dot hblank).1
unfolding timer_ticks
timer_ticks-IsValid u idx cycles dot hblank v =
    let P = λ (r : ℕ × TimerUnit). UnitIsValid r.1 in
    if-cases P (idx == 0 && external_clock_selected u idx) v (
      if-cases P (idx == 1 && external_clock_selected u idx) v (
        if-cases P (idx == 2 && timer2_div8 u)
          (record { value = v.value; mode = v.mode; target = v.target; frac_rem = omega arith })
          (record { value = v.value; mode = v.mode; target = v.target; frac_rem = omega arith })))

apply_sync_edge-IsValid :
    (u : TimerUnit) (idx : ℕ) (edge : Bool)
    → UnitIsValid u
    → UnitIsValid (apply_sync_edge u idx edge)
unfolding apply_sync_edge
apply_sync_edge-IsValid u idx edge v =
    if-cases UnitIsValid (not (test_bit u.mode 0) || idx == 2 || not edge) v (
      if-cases UnitIsValid (low_bits (u.mode >> 1) 2 == 1 || low_bits (u.mode >> 1) 2 == 2)
        (record { value = omega arith; mode = v.mode; target = v.target; frac_rem = v.frac_rem })
        (if-cases UnitIsValid (low_bits (u.mode >> 1) 2 == 3)
          (record { value = v.value; mode = v.mode; target = v.target; frac_rem = v.frac_rem }) v))

unit_step-IsValid :
    (idx cycles : ℕ) (w : Video) (u : TimerUnit) (irq : Irq)
    → UnitIsValid u
    → UnitIsValid (unit_step idx cycles w (u, irq)).0
unfolding unit_step
unit_step-IsValid idx cycles w u irq v =
    let (ticks, u1) = timer_ticks u idx cycles w.dotclock_ticks w.hblank_count in
    let valid = timer_ticks-IsValid u idx cycles w.dotclock_ticks w.hblank_count v in
    let n = apply_sync_period u1 idx ticks w.in_hblank w.in_vblank in
    apply_sync_edge-IsValid (timer_advance idx n (u1, irq)).0 idx
      (if idx == 0 then w.hblank_count != 0 else w.vblank_started)
      (advance-IsValid idx n u1 irq valid)

units_step-IsValid :
    (idx cycles : ℕ) (us : List TimerUnit) (w : Video) (irq : Irq)
    → All UnitIsValid us
    → All UnitIsValid (units_step idx us cycles w irq).0
unfolding units_step
units_step-IsValid idx cycles [] w irq v = v
units_step-IsValid idx cycles (u ∷ us) w irq v = (
  unit_step-IsValid idx cycles w u irq v.0,
  units_step-IsValid (suc idx) cycles us w (unit_step idx cycles w (u, irq)).1 v.1,
)

length-units_step :
    (idx cycles : ℕ) (us : List TimerUnit) (w : Video) (irq : Irq)
    → length (units_step idx us cycles w irq).0 ≡ length us
unfolding units_step
length-units_step idx cycles [] w irq = refl
length-units_step idx cycles (u ∷ us) w irq =
    ap suc (length-units_step (suc idx) cycles us w (unit_step idx cycles w (u, irq)).1)

pub timers_init-IsValid : IsValid timers_init
unfolding timers_init
timers_init-IsValid = record {
  units = refl;
  all = (zero_unit-IsValid, (zero_unit-IsValid, (zero_unit-IsValid, tt)));
}

-- The counters start valid (three of them, with a value, a mode and a target of 16 bits and fewer
-- than 8 cycles left over), and every operation keeps them so: reads, writes of any value at any
-- offset, and steps of any number of cycles with any video signal.
pub timers-IsValid :
    (t : Timers)
    → IsValid t
    → IsValid timers_init
      × ((offset : ℕ) → IsValid (timers_load32 t offset).1)
      × ((offset val : ℕ) (sched : Scheduler) → IsValid (timers_store32 t offset val sched).0)
      × ((cycles : ℕ) (w : Video) (irq : Irq) → IsValid (timers_step t cycles w irq).0)
unfolding timers_step
timers-IsValid t v = (
  timers_init-IsValid,
  λ offset. load-IsValid t offset v,
  λ offset val sched. store-IsValid t offset val sched v,
  λ cycles w irq. record {
    units = length-units_step 0 cycles t.units w irq ∙ v.units;
    all = units_step-IsValid 0 cycles t.units w irq v.all;
  },
)
