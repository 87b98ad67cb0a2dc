-- ===== src/Timer/Period.antt =====
-- The period of a root counter that resets at its target.
use psx_emulator_em_c.Base.{
  ℕ, zero, suc, ◌+◌, ◌*◌, ◌^◌, ◌<◌, ◌≤◌, ◌≡◌, refl, ==_refl, sym, ap, subst, ◌∙◌, arith, Bool, true,
  false, ◌==◌, if◌then◌else◌, u16, test_bit,
}
use native.Mathlib.Nat.{zero-mul, suc-mul}
use psx_emulator_em_c.Irq.{Irq}
use psx_emulator_em_c.Timer.State.{TimerUnit, tmode_reset_target}
use psx_emulator_em_c.Timer.Count.{timer_tick, timer_advance}
use psx_emulator_em_c.Timer.Tick.{
  Same, Same-refl, Same-trans, moved, counted, reset_target-config, counting-tick-Same,
  timer_tick-Same,
}
use psx_emulator_em_c.Timer.Advance.{timer_advance-add, and-true}

-- A counter that starts at 0 with a reset at a target that is not 0.
abbrev Resets : TimerUnit → Type 0
Resets u =
    (u.value ≡ 0)
    × (u.reset_pending ≡ false)
    × (u.mode < 2 ^ 16)
    × (u.target < 2 ^ 16)
    × (0 < u.target)
    × (test_bit u.mode tmode_reset_target ≡ true)

timer_advance-snoc :
    (idx n : ℕ) (s : TimerUnit × Irq)
    → timer_advance idx (suc n) s ≡ timer_tick idx (timer_advance idx n s)
unfolding timer_advance
timer_advance-snoc idx zero s = refl
timer_advance-snoc idx (suc n) s = timer_advance-snoc idx n (timer_tick idx s)

first_period :
    (idx n : ℕ) (u : TimerUnit) (irq : Irq)
    → Resets u
    → n ≤ u.target
    → Same (moved u n (n == u.target)) (timer_advance idx n (u, irq)).0
unfolding timer_advance
first_period idx zero u irq (v, p, m, t, pos, r) h = record {
  value = v;
  target = refl;
  frac_rem = refl;
  reset_pending = p ∙ ground arith;
  mode = refl;
  mode_half = m;
}
first_period idx (suc n) u irq h le =
    let s = timer_advance idx n (u, irq) in
    let before = first_period idx n u irq h (omega arith) in
    let (v, p, m, t, positive, r) = h in
    let tick =
      counting-tick-Same s.0 idx s.1 before.mode_half (before.reset_pending ∙ ground arith) in
    let value : u16 (s.0.value + 1) ≡ suc n = omega (arith, before.value) in
    let armed = reset_target-config u.mode s.0.mode before.mode ∙ r in
    subst (λ (x : TimerUnit × Irq). Same (moved u (suc n) (suc n == u.target)) x.0)
      (sym (timer_advance-snoc idx n (u, irq)))
      record {
        value = tick.value ∙ value;
        target = tick.target ∙ before.target;
        frac_rem = tick.frac_rem ∙ before.frac_rem;
        reset_pending =
            tick.reset_pending ∙ rw (value, before.target, armed) (and-true (suc n == u.target));
        mode = tick.mode ∙ before.mode;
        mode_half = tick.mode_half;
      }

whole_period :
    (idx : ℕ) (u : TimerUnit) (irq : Irq)
    → Resets u
    → Same u (timer_advance idx (suc u.target) (u, irq)).0
whole_period idx u irq h =
    let s = timer_advance idx u.target (u, irq) in
    let before = first_period idx u.target u irq h (omega arith) in
    let due : s.0.reset_pending ≡ true = before.reset_pending ∙ ==_refl u.target in
    let tick =
      subst
        (λ (p : Bool).
          Same (if p then moved s.0 0 false else counted s.0) (timer_tick idx (s.0, s.1)).0)
        due (timer_tick-Same s.0 idx s.1 before.mode_half) in
    subst (λ (x : TimerUnit × Irq). Same u x.0) (sym (timer_advance-snoc idx u.target (u, irq)))
      record {
        value = tick.value ∙ sym h.0;
        target = tick.target ∙ before.target;
        frac_rem = tick.frac_rem ∙ before.frac_rem;
        reset_pending = tick.reset_pending ∙ sym h.1;
        mode = tick.mode ∙ before.mode;
        mode_half = tick.mode_half;
      }

Resets-Same : (u u' : TimerUnit) → Resets u → Same u u' → Resets u'
Resets-Same u u' (v, p, m, t, positive, r) s = (
  s.value ∙ v,
  s.reset_pending ∙ p,
  s.mode_half,
  omega (arith, s.target),
  omega (arith, s.target),
  reset_target-config u.mode u'.mode s.mode ∙ r,
)

-- As many periods as one likes lead back to the beginning.
many_periods :
    (idx rounds : ℕ) (u : TimerUnit) (irq : Irq)
    → Resets u
    → Same u (timer_advance idx (rounds * suc u.target) (u, irq)).0
unfolding timer_advance
many_periods idx zero u irq h =
    subst (λ (k : ℕ). Same u (timer_advance idx k (u, irq)).0) (sym (zero-mul (suc u.target)))
      (start h.2)
  where
    start : u.mode < 2 ^ 16 → Same u (timer_advance idx 0 (u, irq)).0
    start m = Same-refl m
many_periods idx (suc rounds) u irq h =
    let s = timer_advance idx (rounds * suc u.target) (u, irq) in
    let before = many_periods idx rounds u irq h in
    let last = whole_period idx s.0 s.1 (Resets-Same u s.0 h before) in
    let run : timer_advance idx (suc rounds * suc u.target) (u, irq)
        ≡ timer_advance idx (suc s.0.target) s =
      ap (λ (k : ℕ). timer_advance idx k (u, irq)) (suc-mul rounds (suc u.target))
      ∙ timer_advance-add idx (rounds * suc u.target) (suc u.target) (u, irq)
      ∙ ap (λ (k : ℕ). timer_advance idx (suc k) s) (sym before.target) in
    subst (λ (x : TimerUnit × Irq). Same u x.0) (sym run) (Same-trans before last)

-- With the reset at the target the counter has the period target + 1: started at 0 with no reset
-- pending and a target that is not 0, it has gone around any number of times and reads n when n more
-- ticks have passed, for n up to the target, where the reset is pending exactly at the target.
-- Mode and target are to be 16 bits wide.
pub timer_advance-period :
    (idx rounds n : ℕ) (u : TimerUnit) (irq : Irq)
    → u.value ≡ 0
    → u.reset_pending ≡ false
    → u.mode < 2 ^ 16
    → u.target < 2 ^ 16
    → 0 < u.target
    → test_bit u.mode tmode_reset_target ≡ true
    → n ≤ u.target
    → let u' = (timer_advance idx (rounds * suc u.target + n) (u, irq)).0 in
      (u'.value ≡ n) × (u'.reset_pending ≡ (n == u.target))
timer_advance-period idx rounds n u irq v p m t positive r le =
    let start : Resets u = (v, p, m, t, positive, r) in
    let s = timer_advance idx (rounds * suc u.target) (u, irq) in
    let before = many_periods idx rounds u irq start in
    let last =
      first_period idx n s.0 s.1 (Resets-Same u s.0 start before) (omega (arith, before.target)) in
    let run = timer_advance-add idx (rounds * suc u.target) n (u, irq) in
    (
      ap (λ (x : TimerUnit × Irq). x.0.value) run ∙ last.value,
      ap (λ (x : TimerUnit × Irq). x.0.reset_pending) run
          ∙ last.reset_pending
          ∙ ap (λ (t : ℕ). n == t) before.target,
    )
