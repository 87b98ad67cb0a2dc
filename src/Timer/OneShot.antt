-- ===== src/Timer/OneShot.antt =====
-- A root counter that is not to repeat its interrupt raises it once.
use psx_emulator_em_c.Base.{
  ℕ, zero, suc, ◌+◌, ◌-◌, ◌*◌, ◌/◌, ◌%◌, ◌^◌, ◌≡◌, refl, ◌⊎◌, inl, inr, sym, ap, subst, ◌∙◌, arith,
  Bool, true, false, if-cases, ◌==◌, if◌then◌else◌, u16, test_bit, set_bit,
}
use psx_emulator_em_c.Irq.{Irq}
use psx_emulator_em_c.Timer.State.{
  TimerUnit, tmode_reset_target, tmode_irq_repeat, tmode_irq_target, tmode_irq_overflow,
  tmode_target_reached, tmode_overflow_reached,
}
use psx_emulator_em_c.Timer.Count.{
  fire_irq, on_target, on_overflow, timer_tick, count_up, timer_advance,
}

-- The counter has raised its interrupt and is not to repeat it.
record Spent (u : TimerUnit) : Type 0 where
  fired : u.fired ≡ true
  once : test_bit u.mode tmode_irq_repeat ≡ false

fire_irq-Spent : (u : TimerUnit) (idx : ℕ) (irq : Irq) → Spent u → fire_irq u idx irq ≡ (u, irq)
unfolding fire_irq
fire_irq-Spent u idx irq h = rw (h.once, h.fired)

-- The result of a step from a spent counter: it is spent, and the interrupt controller is as it was.
abbrev Silent : Irq → TimerUnit × Irq → Type 0
Silent irq r = Spent r.0 × (r.1 ≡ irq)

fire_if-Silent :
    (b : Bool) (u : TimerUnit) (idx : ℕ) (irq : Irq)
    → Spent u
    → Silent irq (if b then fire_irq u idx irq else (u, irq))
fire_if-Silent true u idx irq h = subst (Silent irq) (sym (fire_irq-Spent u idx irq h)) (h, refl)
fire_if-Silent false u idx irq h = (h, refl)

-- The sticky bits are not those that say whether to repeat.
set_bit-repeat :
    (m k : ℕ)
    → (k ≡ 11) ⊎ (k ≡ 12)
    → test_bit (set_bit m k) tmode_irq_repeat ≡ test_bit m tmode_irq_repeat
set_bit-repeat m k (inl e) = rw e (ap (λ (b : ℕ). b == 1) (go (m / 2 ^ 11 % 2)))
  where
    go : (b : ℕ) → (m + (1 - b) * 2 ^ 11) / 2 ^ 6 % 2 ≡ m / 2 ^ 6 % 2
    go b = omega arith
set_bit-repeat m k (inr e) = rw e (ap (λ (b : ℕ). b == 1) (go (m / 2 ^ 12 % 2)))
  where
    go : (b : ℕ) → (m + (1 - b) * 2 ^ 12) / 2 ^ 6 % 2 ≡ m / 2 ^ 6 % 2
    go b = omega arith

set_reached-Spent :
    (u : TimerUnit) (k : ℕ)
    → (k ≡ 11) ⊎ (k ≡ 12)
    → Spent u
    → Spent (record u { mode = set_bit u.mode k })
set_reached-Spent u k e h = record { fired = h.fired; once = set_bit-repeat u.mode k e ∙ h.once }

on_target-Silent :
    (u : TimerUnit) (idx : ℕ) (irq : Irq) → Spent u → Silent irq (on_target u idx irq)
unfolding on_target
on_target-Silent u idx irq h =
    let m = set_bit u.mode tmode_target_reached in
    let u' : TimerUnit = record u { mode = m } in
    let b = test_bit m tmode_irq_target in
    let s = fire_if-Silent b u' idx irq (set_reached-Spent u 11 (inl refl) h) in
    let r = if b then fire_irq u' idx irq else (u', irq) in
    (
      if-cases Spent (test_bit r.0.mode tmode_reset_target)
          (record { fired = s.0.fired; once = s.0.once }) s.0,
      s.1,
    )

on_overflow-Silent :
    (u : TimerUnit) (idx : ℕ) (irq : Irq) → Spent u → Silent irq (on_overflow u idx irq)
unfolding on_overflow
on_overflow-Silent u idx irq h =
    let m = set_bit u.mode tmode_overflow_reached in
    fire_if-Silent (test_bit m tmode_irq_overflow) (record u { mode = m }) idx irq
      (set_reached-Spent u 12 (inr refl) h)

Silent-trans :
    {irq : Irq} (r : TimerUnit × Irq) {r' : TimerUnit × Irq}
    → Silent irq r
    → Silent r.1 r'
    → Silent irq r'
Silent-trans r h h' = (h'.0, h'.1 ∙ h.1)

count_up-Silent : (u : TimerUnit) (idx : ℕ) (irq : Irq) → Spent u → Silent irq (count_up idx u irq)
unfolding count_up
count_up-Silent u idx irq h =
    let v = u16 (u.value + 1) in
    let u' : TimerUnit = record u { value = v } in
    let r = if v == u.target then on_target u' idx irq else (u', irq) in
    let spent : Spent u' = record { fired = h.fired; once = h.once } in
    let s : Silent irq r =
      if-cases (Silent irq) (v == u.target) (on_target-Silent u' idx irq spent) (spent, refl) in
    if-cases (Silent irq) (u.value == 0xffff)
      (Silent-trans r s (on_overflow-Silent r.0 idx r.1 s.0)) s

timer_tick-Silent :
    (u : TimerUnit) (idx : ℕ) (irq : Irq) → Spent u → Silent irq (timer_tick idx (u, irq))
unfolding timer_tick
timer_tick-Silent u idx irq h =
    if-cases (Silent irq) u.reset_pending (record { fired = h.fired; once = h.once }, refl)
      (count_up-Silent u idx irq h)

advance-Silent :
    (idx n : ℕ) (u : TimerUnit) (irq : Irq) → Spent u → Silent irq (timer_advance idx n (u, irq))
unfolding timer_advance
advance-Silent idx zero u irq h = (h, refl)
advance-Silent idx (suc n) u irq h =
    let r = timer_tick idx (u, irq) in
    let s = timer_tick-Silent u idx irq h in Silent-trans r s (advance-Silent idx n r.0 r.1 s.0)

-- In one-shot mode, where the repeat bit is clear, a counter that has raised its interrupt raises no
-- further one, however many ticks pass and whatever its target and its other mode bits are: the
-- interrupt controller stays as it was, and the counter stays in that condition.
pub timer_advance-one_shot :
    (idx n : ℕ) (u : TimerUnit) (irq : Irq)
    → u.fired ≡ true
    → test_bit u.mode tmode_irq_repeat ≡ false
    → let (u', irq') = timer_advance idx n (u, irq) in
      (irq' ≡ irq) × (u'.fired ≡ true) × (test_bit u'.mode tmode_irq_repeat ≡ false)
timer_advance-one_shot idx n u irq hf hr =
    let s = advance-Silent idx n u irq (record { fired = hf; once = hr }) in
    (s.1, s.0.fired, s.0.once)
