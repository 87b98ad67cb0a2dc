-- ===== src/Sio/Timing.antt =====
-- sio.c: when the acknowledge interrupt of the serial port comes.
use psx_emulator_em_c.Base.{
  ℕ, ◌+◌, ◌-◌, ◌<◌, ◌≡◌, refl, ap, sym, ◌∙◌, arith, Bool, true, false, List, [], ◌∷◌, leb, ◌||◌,
  if◌then◌else◌, bit,
}
use psx_emulator_em_c.Irq.{Irq, irq_assert, irq_sio}
use psx_emulator_em_c.Irq.Laws.{irq_assert-status}
use psx_emulator_em_c.Sio.{Sio, schedule_ack_irq, serial_byte_cycles, build_stat}
use psx_emulator_em_c.Sio.Registers.{sio_step, sio_cycles_until_event}

-- Time can be cut anywhere: a step of `a` cycles and then one of `b` leave the port as one step of
-- `a + b` cycles does.
pub sio_step-sio_step :
    (sio : Sio) (irq irq' : Irq) (a b : ℕ)
    → (sio_step (sio_step sio irq a).0 irq' b).0 ≡ (sio_step sio irq (a + b)).0
unfolding sio_step
sio_step-sio_step sio irq irq' a b = ground arith

-- Steps one after the other, and the cycles that they take together.
abbrev pub run_steps : Sio → Irq → List ℕ → Sio × Irq
run_steps sio irq [] = (sio, irq)
run_steps sio irq (n ∷ ns) = let (sio, irq) = sio_step sio irq n in run_steps sio irq ns

abbrev pub total : List ℕ → ℕ
total [] = 0
total (n ∷ ns) = n + total ns

no_time : (sio : Sio) (irq : Irq) → (sio_step sio irq 0).0 ≡ sio
unfolding sio_step
no_time sio irq = ground arith

-- The port does not tell the steps from one step.
as_one_step :
    (sio : Sio) (irq : Irq) (ns : List ℕ)
    → (run_steps sio irq ns).0 ≡ (sio_step sio irq (total ns)).0
as_one_step sio irq [] = sym (no_time sio irq)
as_one_step sio irq (n ∷ ns) =
    let (after, irq') = sio_step sio irq n in
    as_one_step after irq' ns ∙ sio_step-sio_step sio irq irq' n (total ns)

-- A request that is set has raised the controller's line, bit 7 of I_STAT.
abbrev Raised : Sio → Irq → Type 0
Raised sio irq = sio.irq_pending ≡ true → bit irq.status 7 ≡ 1

raised_line : (irq : Irq) → bit (irq_assert irq irq_sio).status 7 ≡ 1
raised_line irq = ap (λ (w : ℕ). bit w 7) (irq_assert-status irq irq_sio).0 ∙ omega arith

line_of :
    (b : Bool) (irq : Irq) → b ≡ true → bit (if b then irq_assert irq irq_sio else irq).status 7 ≡ 1
line_of true irq e = raised_line irq
line_of false irq e = absurd (ground arith)

step-Raised :
    (sio : Sio) (irq : Irq) (n : ℕ) → let (after, irq') = sio_step sio irq n in Raised after irq'
unfolding sio_step
step-Raised sio irq n e = line_of _ irq e

run_steps-Raised :
    (sio : Sio) (irq : Irq) (ns : List ℕ)
    → Raised sio irq
    → let (after, irq') = run_steps sio irq ns in Raised after irq'
run_steps-Raised sio irq [] r = r
run_steps-Raised sio irq (n ∷ ns) r =
    let (after, irq') = sio_step sio irq n in run_steps-Raised after irq' ns (step-Raised sio irq n)

-- Before the time is up nothing is requested.
quiet_step :
    (sio : Sio) (irq : Irq) (n : ℕ)
    → sio.irq_pending ≡ false
    → n < sio.irq_cycles_remaining
    → let (after, irq') = sio_step sio irq n in
      (irq' ≡ irq)
      × (after.irq_pending ≡ false)
      × (after.irq_cycles_remaining ≡ sio.irq_cycles_remaining - n)
unfolding sio_step
quiet_step sio irq n e h = ground arith

quiet_steps :
    (sio : Sio) (irq : Irq) (ns : List ℕ)
    → sio.irq_pending ≡ false
    → total ns < sio.irq_cycles_remaining
    → (run_steps sio irq ns).1 ≡ irq
quiet_steps sio irq [] e h = refl
quiet_steps sio irq (n ∷ ns) e h =
    let (after, irq') = sio_step sio irq n in
    let q = quiet_step sio irq n e (omega arith) in
    quiet_steps after irq' ns q.1 (omega (arith, q.2)) ∙ q.0

-- One step of an acknowledgement that is due.
due_step :
    (sio : Sio) (irq : Irq) (n : ℕ)
    → 0 < sio.irq_cycles_remaining
    → let after = (sio_step sio irq n).0 in
      let up = leb sio.irq_cycles_remaining n in
      (after.irq_cycles_remaining ≡ (if up then 0 else sio.irq_cycles_remaining - n))
      × (after.irq_pending ≡ (if up then true else sio.irq_pending))
      × (after.ack_active ≡ (if up then true else sio.ack_active))
      × (up ≡ true → bit after.stat 7 ≡ 1)
      × (up ≡ true → bit after.stat 9 ≡ 1)
unfolding sio_step build_stat
due_step sio irq n h = ground arith

due_positive : (sio : Sio) → 0 < serial_byte_cycles sio
unfolding serial_byte_cycles
due_positive sio = ground arith

-- Equations that hold in one case.
when_true : (b : Bool) (x : ℕ) → (b ≡ true → x ≡ 1) → (if b then x else 1) ≡ 1
when_true true x h = h refl
when_true false x h = refl

when_false :
    (b : Bool) (irq irq' : Irq) → (b ≡ false → irq' ≡ irq) → (if b then irq else irq') ≡ irq
when_false true irq irq' h = refl
when_false false irq irq' h = h refl

after-Raised :
    (sio : Sio) (irq : Irq) (ns : List ℕ)
    → 0 < total ns
    → let (after, irq') = run_steps sio irq ns in Raised after irq'
after-Raised sio irq [] h = absurd (omega arith)
after-Raised sio irq (n ∷ ns) h =
    let (after, irq') = sio_step sio irq n in run_steps-Raised after irq' ns (step-Raised sio irq n)

-- An acknowledgement that is scheduled comes when the time of a byte on the line has passed, and not
-- before, however that time is cut into steps. `sio_cycles_until_event` gives this time, which is not
-- 0. After steps of fewer cycles in all, the rest is still to wait, the request and the acknowledge
-- line are as before, and without an earlier request so is the interrupt controller. After steps of
-- as many cycles or more, nothing is left to wait, the request and the acknowledge line are set, the
-- status register shows both, in bits 9 and 7, and the interrupt controller's line is raised.
pub run_steps-schedule_ack_irq :
    (sio : Sio) (irq : Irq) (ns : List ℕ)
    → let due = serial_byte_cycles sio in
      let scheduled = schedule_ack_irq sio in
      let (after, irq') = run_steps scheduled irq ns in
      let up = leb due (total ns) in
      (sio_cycles_until_event scheduled ≡ due)
      × (0 < due)
      × (after.irq_cycles_remaining ≡ (if up then 0 else due - total ns))
      × (after.irq_pending ≡ (if up then true else sio.irq_pending))
      × (after.ack_active ≡ (if up then true else sio.ack_active))
      × ((if up then bit after.stat 7 else 1) ≡ 1)
      × ((if up then bit after.stat 9 else 1) ≡ 1)
      × ((if up then bit irq'.status 7 else 1) ≡ 1)
      × ((if up || sio.irq_pending then irq else irq') ≡ irq)
unfolding schedule_ack_irq sio_cycles_until_event
run_steps-schedule_ack_irq sio irq ns =
    let due = serial_byte_cycles sio in
    let scheduled = schedule_ack_irq sio in
    let up = leb due (total ns) in
    let one = as_one_step scheduled irq ns in
    let positive = due_positive sio in
    let k = due_step scheduled irq (total ns) positive in
    let pending = ap (λ (s : Sio). s.irq_pending) one ∙ k.1 in
    (
      ground arith,
      positive,
      ap (λ (s : Sio). s.irq_cycles_remaining) one ∙ k.0,
      pending,
      ap (λ (s : Sio). s.ack_active) one ∙ k.2,
      when_true up _ (λ e. ap (λ (s : Sio). bit s.stat 7) one ∙ k.3 e),
      when_true up _ (λ e. ap (λ (s : Sio). bit s.stat 9) one ∙ k.4 e),
      when_true up _ (λ e.
          after-Raised scheduled irq ns (ground arith)
            (pending ∙ ap (λ (b : Bool). if b then true else sio.irq_pending) e)),
      when_false (up || sio.irq_pending) irq _ (λ e.
          let early : total ns < due = ground arith in
          quiet_steps scheduled irq ns (ground arith) early),
    )
