-- ===== src/Timer/Tick.antt =====
-- timer.c: what one tick of a counter does to each of its fields.
use psx_emulator_em_c.Base.{
  ℕ, ◌+◌, ◌%◌, ◌^◌, ◌<◌, ◌≡◌, refl, ap, subst, ◌∙◌, arith, Bool, true, false, ◌&&◌, not, if-cases,
  ◌==◌, if◌then◌else◌, u16, bit, test_bit, set_bit, clear_bit,
}
use psx_emulator_em_c.Irq.{Irq}
use psx_emulator_em_c.Timer.State.{
  TimerUnit, tmode_reset_target, tmode_irq_repeat, tmode_irq_status, tmode_irq_target,
  tmode_irq_overflow, tmode_irq_toggle, tmode_target_reached, tmode_overflow_reached,
}
use psx_emulator_em_c.Timer.Count.{fire_irq, on_target, on_overflow, timer_tick, count_up}

-- The bits of the mode that the program sets, and the status bits that the counter changes.
unfoldable pub config : ℕ → ℕ
config m = m % 2 ^ 10

pub set_status : (m : ℕ) → m < 2 ^ 16 → (config (set_bit m 10) ≡ config m) × (set_bit m 10 < 2 ^ 16)
unfolding config
set_status m h = (omega arith, omega arith)

set_target_reached :
    (m : ℕ) → m < 2 ^ 16 → (config (set_bit m 11) ≡ config m) × (set_bit m 11 < 2 ^ 16)
unfolding config
set_target_reached m h = (omega arith, omega arith)

set_overflow_reached :
    (m : ℕ) → m < 2 ^ 16 → (config (set_bit m 12) ≡ config m) × (set_bit m 12 < 2 ^ 16)
unfolding config
set_overflow_reached m h = (omega arith, omega arith)

clear_status :
    (m : ℕ) → m < 2 ^ 16 → (config (clear_bit m 10) ≡ config m) × (clear_bit m 10 < 2 ^ 16)
unfolding config
clear_status m h = (omega arith, omega arith)

-- What stays when only status bits of the mode and `fired` change.
pub record Same (u u' : TimerUnit) : Type 0 where
  pub value : u'.value ≡ u.value
  pub target : u'.target ≡ u.target
  pub frac_rem : u'.frac_rem ≡ u.frac_rem
  pub reset_pending : u'.reset_pending ≡ u.reset_pending
  pub mode : config u'.mode ≡ config u.mode
  pub mode_half : u'.mode < 2 ^ 16

pub Same-refl : {u : TimerUnit} → u.mode < 2 ^ 16 → Same u u
Same-refl h = record {
  value = refl;
  target = refl;
  frac_rem = refl;
  reset_pending = refl;
  mode = refl;
  mode_half = h;
}

pub Same-trans : {a b c : TimerUnit} → Same a b → Same b c → Same a c
Same-trans p q = record {
  value = q.value ∙ p.value;
  target = q.target ∙ p.target;
  frac_rem = q.frac_rem ∙ p.frac_rem;
  reset_pending = q.reset_pending ∙ p.reset_pending;
  mode = q.mode ∙ p.mode;
  mode_half = q.mode_half;
}

Same-mode :
    {u : TimerUnit} (m : ℕ) (f : Bool)
    → (config m ≡ config u.mode) × (m < 2 ^ 16)
    → Same u (record u { mode = m; fired = f })
Same-mode m f h = record {
  value = refl;
  target = refl;
  frac_rem = refl;
  reset_pending = refl;
  mode = h.0;
  mode_half = h.1;
}

fire_irq-Same :
    (u : TimerUnit) (idx : ℕ) (irq : Irq) → u.mode < 2 ^ 16 → Same u (fire_irq u idx irq).0
unfolding fire_irq
fire_irq-Same u idx irq h =
    let Goal = λ (r : TimerUnit × Irq). Same u r.0 in
    if-cases Goal (not (test_bit u.mode tmode_irq_repeat) && u.fired) (Same-refl h) (
      if-cases Goal (test_bit u.mode tmode_irq_toggle)
        (if-cases Goal (test_bit u.mode tmode_irq_status)
          (Same-mode (clear_bit u.mode tmode_irq_status) true (clear_status u.mode h))
          (Same-mode (set_bit u.mode tmode_irq_status) u.fired (set_status u.mode h)))
        (Same-mode (set_bit (clear_bit u.mode tmode_irq_status) tmode_irq_status) true pulse))
  where
    pulse :
        (config (set_bit (clear_bit u.mode tmode_irq_status) tmode_irq_status) ≡ config u.mode)
        × (set_bit (clear_bit u.mode tmode_irq_status) tmode_irq_status < 2 ^ 16)
    pulse =
        let (c, lt) = clear_status u.mode h in
        let (c', lt') = set_status (clear_bit u.mode tmode_irq_status) lt in (c' ∙ c, lt')

pub reset_target-config :
    (m m' : ℕ)
    → config m' ≡ config m
    → test_bit m' tmode_reset_target ≡ test_bit m tmode_reset_target
unfolding config
reset_target-config m m' h =
    let e : bit m' tmode_reset_target ≡ bit m tmode_reset_target = omega arith in
    ap (λ (b : ℕ). b == 1) e

-- `u` with another value and pending reset.
abbrev pub moved : TimerUnit → ℕ → Bool → TimerUnit
moved u v r = record u { value = v; reset_pending = r }

Same-moved : {u u' : TimerUnit} (v : ℕ) (r : Bool) → Same u u' → Same (moved u v r) (moved u' v r)
Same-moved v r h = record {
  value = refl;
  target = h.target;
  frac_rem = h.frac_rem;
  reset_pending = refl;
  mode = h.mode;
  mode_half = h.mode_half;
}

arm :
    (u u' : TimerUnit)
    → u.reset_pending ≡ false
    → Same u u'
    → Same
        (moved u u.value (test_bit u.mode tmode_reset_target))
        (if test_bit u'.mode tmode_reset_target then record u' { reset_pending = true } else u')
arm u u' np h =
    rw (reset_target-config u.mode u'.mode h.mode) (go (test_bit u.mode tmode_reset_target))
  where
    go :
        (b : Bool) → Same (moved u u.value b) (if b then record u' { reset_pending = true } else u')
    go true = record {
      value = h.value;
      target = h.target;
      frac_rem = h.frac_rem;
      reset_pending = refl;
      mode = h.mode;
      mode_half = h.mode_half;
    }
    go false = record {
      value = h.value;
      target = h.target;
      frac_rem = h.frac_rem;
      reset_pending = h.reset_pending ∙ np;
      mode = h.mode;
      mode_half = h.mode_half;
    }

fire_if-Same :
    (b : Bool) (u : TimerUnit) (m : ℕ) (idx : ℕ) (irq : Irq)
    → (config m ≡ config u.mode) × (m < 2 ^ 16)
    → let u' : TimerUnit = record u { mode = m } in
      Same u (if b then fire_irq u' idx irq else (u', irq)).0
fire_if-Same true u m idx irq h =
    Same-trans (Same-mode m u.fired h) (fire_irq-Same (record u { mode = m }) idx irq h.1)
fire_if-Same false u m idx irq h = Same-mode m u.fired h

on_target-Same :
    (u : TimerUnit) (idx : ℕ) (irq : Irq)
    → u.mode < 2 ^ 16
    → u.reset_pending ≡ false
    → Same (moved u u.value (test_bit u.mode tmode_reset_target)) (on_target u idx irq).0
unfolding on_target
on_target-Same u idx irq h np =
    let m = set_bit u.mode tmode_target_reached in
    let u' : TimerUnit = record u { mode = m } in
    let r = if test_bit m tmode_irq_target then fire_irq u' idx irq else (u', irq) in
    arm u r.0 np
      (fire_if-Same (test_bit m tmode_irq_target) u m idx irq (set_target_reached u.mode h))

on_overflow-Same :
    (u : TimerUnit) (idx : ℕ) (irq : Irq) → u.mode < 2 ^ 16 → Same u (on_overflow u idx irq).0
unfolding on_overflow
on_overflow-Same u idx irq h =
    let m = set_bit u.mode tmode_overflow_reached in
    fire_if-Same (test_bit m tmode_irq_overflow) u m idx irq (set_overflow_reached u.mode h)

counted-Same :
    (u : TimerUnit) (idx : ℕ) (irq : Irq) (v : ℕ) (hit : Bool)
    → u.mode < 2 ^ 16
    → u.reset_pending ≡ false
    → let u' : TimerUnit = record u { value = v } in
      Same
        (moved u v (hit && test_bit u.mode tmode_reset_target))
        (if hit then on_target u' idx irq else (u', irq)).0
counted-Same u idx irq v true h np = on_target-Same (record u { value = v }) idx irq h np
counted-Same u idx irq v false h np = record {
  value = refl;
  target = refl;
  frac_rem = refl;
  reset_pending = np;
  mode = refl;
  mode_half = h;
}

-- What a tick makes of the value and the pending reset when it counts.
abbrev pub counted : TimerUnit → TimerUnit
counted u =
    let v = u16 (u.value + 1) in moved u v ((v == u.target) && test_bit u.mode tmode_reset_target)

count_up-Same :
    (u : TimerUnit) (idx : ℕ) (irq : Irq)
    → u.mode < 2 ^ 16
    → u.reset_pending ≡ false
    → Same (counted u) (count_up idx u irq).0
unfolding count_up
count_up-Same u idx irq h np =
    let v = u16 (u.value + 1) in
    let u' : TimerUnit = record u { value = v } in
    let r = if v == u.target then on_target u' idx irq else (u', irq) in
    let s = counted-Same u idx irq v (v == u.target) h np in
    if-cases (λ (x : TimerUnit × Irq). Same (counted u) x.0) (u.value == 0xffff)
      (Same-trans s (on_overflow-Same r.0 idx r.1 s.mode_half)) s

pub timer_tick-Same :
    (u : TimerUnit) (idx : ℕ) (irq : Irq)
    → u.mode < 2 ^ 16
    → Same (if u.reset_pending then moved u 0 false else counted u) (timer_tick idx (u, irq)).0
unfolding timer_tick
timer_tick-Same u idx irq h = go u.reset_pending refl
  where
    go :
        (b : Bool)
        → u.reset_pending ≡ b
        → Same
            (if b then moved u 0 false else counted u)
            (if b then (moved u 0 false, irq) else count_up idx u irq).0
    go true e = Same-refl h
    go false e = count_up-Same u idx irq h e

-- The tick of a counter that no reset is pending for.
pub counting-tick-Same :
    (u : TimerUnit) (idx : ℕ) (irq : Irq)
    → u.mode < 2 ^ 16
    → u.reset_pending ≡ false
    → Same (counted u) (timer_tick idx (u, irq)).0
counting-tick-Same u idx irq h np =
    subst
      (λ (p : Bool). Same (if p then moved u 0 false else counted u) (timer_tick idx (u, irq)).0) np
      (timer_tick-Same u idx irq h)

pub Same-pending :
    (u : TimerUnit) {w : TimerUnit} {v : ℕ} {r r' : Bool}
    → r ≡ r'
    → Same (moved u v r) w
    → Same (moved u v r') w
Same-pending u {w} {v} e s = subst (λ (r : Bool). Same (moved u v r) w) e s
