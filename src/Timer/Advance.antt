-- ===== src/Timer/Advance.antt =====
-- timer.c: runs of ticks, and the counter that runs freely.
use psx_emulator_em_c.Base.{
  ℕ, zero, suc, ◌+◌, ◌^◌, ◌<◌, ◌≡◌, refl, ap, ◌∙◌, arith, Bool, true, false, ◌&&◌, ◌==◌, u16,
  test_bit,
}
use native.Mathlib.Nat.{zero-add, suc-add}
use psx_emulator_em_c.Irq.{Irq}
use psx_emulator_em_c.Timer.State.{TimerUnit, tmode_reset_target}
use psx_emulator_em_c.Timer.Count.{timer_tick, timer_advance}
use psx_emulator_em_c.Timer.Tick.{
  Same, reset_target-config, moved, counting-tick-Same, Same-pending,
}

and-false : (b : Bool) → (b && false) ≡ false
and-false true = refl
and-false false = refl

pub and-true : (b : Bool) → (b && true) ≡ b
and-true true = refl
and-true false = refl

-- Two runs of ticks in a row are one run.
pub timer_advance-add :
    (idx a b : ℕ) (s : TimerUnit × Irq)
    → timer_advance idx (a + b) s ≡ timer_advance idx b (timer_advance idx a s)
unfolding timer_advance
timer_advance-add idx zero b s = ap (λ (n : ℕ). timer_advance idx n s) (zero-add b)
timer_advance-add idx (suc a) b s =
    ap (λ (n : ℕ). timer_advance idx n s) (suc-add a b)
    ∙ timer_advance-add idx a b (timer_tick idx s)

-- Without the reset at the target, a counter that no reset is pending for runs freely: n ticks add n to
-- its value, modulo 2^16. Value and mode are to be 16 bits wide.
pub timer_advance-free_run :
    (idx n : ℕ) (u : TimerUnit) (irq : Irq)
    → u.value < 2 ^ 16
    → u.mode < 2 ^ 16
    → test_bit u.mode tmode_reset_target ≡ false
    → u.reset_pending ≡ false
    → let u' = (timer_advance idx n (u, irq)).0 in
      (u'.value ≡ u16 (u.value + n)) × (u'.reset_pending ≡ false)
unfolding timer_advance
timer_advance-free_run idx zero u irq hv hm hr hp = (omega arith, hp)
timer_advance-free_run idx (suc n) u irq hv hm hr hp =
    let u1 = (timer_tick idx (u, irq)).0 in
    let same : Same (moved u (u16 (u.value + 1)) false) u1 =
      Same-pending u (rw hr (and-false (u16 (u.value + 1) == u.target)))
        (counting-tick-Same u idx irq hm hp) in
    let rest =
      timer_advance-free_run idx n u1 (timer_tick idx (u, irq)).1 (omega (arith, same.value))
        same.mode_half (reset_target-config u.mode u1.mode same.mode ∙ hr) same.reset_pending in
    (omega (arith, rest.0, same.value), rest.1)
