-- ===== src/Scheduler/Requests.antt =====
-- scheduler.c: the interrupt requests that a step raises.
use psx_emulator_em_c.Base.{
  ℕ, suc, ◌+◌, ◌^◌, ◌≡◌, refl, sym, ap, ◌∙◌, arith, Bool, true, false, ◌&&◌, ◌||◌, List, [], ◌∷◌,
  ◌==◌, if◌then◌else◌, u64, bit, bit_or, bit-bit_or, power-bit_ne, power-bit_self, Bool-cases, inl,
  inr, ==_iff,
}
use psx_emulator_em_c.Irq.{
  Irq, IrqFlag, flag_bit, flag_value, irq_timer0, irq_timer1, irq_timer2, irq_spu, irq_assert,
}
use psx_emulator_em_c.Scheduler.{
  EventType, event_timer0, event_timer1, event_timer2, event_spu_sample, Event, Scheduler,
  all_types, fire, is_due, step_events, scheduler_step,
}

-- Whether an event of the type requests the interrupt whose bit is `k`.
abbrev pub requests : EventType → ℕ → Bool
requests event_timer0 k = 4 == k
requests event_timer1 k = 5 == k
requests event_timer2 k = 6 == k
requests event_spu_sample k = 9 == k
requests _ k = false

-- Whether one of the events that are due requests it.
abbrev pub requested : ℕ → ℕ → List EventType → List Event → Bool
requested now k (t ∷ ts) (e ∷ es) = (is_due now e && requests t k) || requested now k ts es
requested now k _ _ = false

assert-bit :
    (irq : Irq) (f : IrqFlag) (k : ℕ)
    → bit (irq_assert irq f).status k ≡ (if flag_bit f == k then 1 else bit irq.status k)
unfolding irq_assert
assert-bit irq f k = elim (Bool-cases (flag_bit f == k)) [
  | inl e ↦
      let same : flag_bit f ≡ k = (==_iff (flag_bit f) k).0 e in
      rw e (
        ap (bit (bit_or irq.status (flag_value f))) (sym same)
        ∙ omega (
          arith,
          bit-bit_or (flag_bit f) irq.status (2 ^ flag_bit f),
          power-bit_self (flag_bit f),
        ))
  | inr e ↦ rw e (
      omega (
        arith,
        bit-bit_or k irq.status (2 ^ flag_bit f),
        power-bit_ne (flag_bit f) k (ground arith),
      ))
]

fire-bit :
    (t : EventType) (irq : Irq) (k : ℕ)
    → (bit (fire t irq).status k ≡ (if requests t k then 1 else bit irq.status k))
      × ((fire t irq).mask ≡ irq.mask)
unfolding fire irq_assert
fire-bit event_timer0 irq k = (assert-bit irq irq_timer0 k, refl)
fire-bit event_timer1 irq k = (assert-bit irq irq_timer1 k, refl)
fire-bit event_timer2 irq k = (assert-bit irq irq_timer2 k, refl)
fire-bit event_spu_sample irq k = (assert-bit irq irq_spu k, refl)
fire-bit _ irq k = (refl, refl)

-- What one slot does, whether it is due or not.
slot-bit :
    (due : Bool) (t : EventType) (irq : Irq) (k : ℕ)
    → let irq' = if due then fire t irq else irq in
      (bit irq'.status k ≡ (if due && requests t k then 1 else bit irq.status k))
      × (irq'.mask ≡ irq.mask)
slot-bit true t irq k = fire-bit t irq k
slot-bit false t irq k = (refl, refl)

or-step :
    (a b : Bool) (x y z : ℕ)
    → x ≡ (if b then 1 else y)
    → y ≡ (if a then 1 else z)
    → x ≡ (if a || b then 1 else z)
or-step true true x y z h g = h
or-step true false x y z h g = h ∙ g
or-step false b x y z h g = h ∙ ap (λ (w : ℕ). if b then 1 else w) g

step_events-requests :
    (now i : ℕ) (ts : List EventType) (es : List Event) (fired : ℕ) (irq : Irq) (k : ℕ)
    → let irq' = (step_events now i ts es fired irq).irq in
      (bit irq'.status k ≡ (if requested now k ts es then 1 else bit irq.status k))
      × (irq'.mask ≡ irq.mask)
unfolding step_events
step_events-requests now i [] [] fired irq k = (refl, refl)
step_events-requests now i [] (e ∷ es) fired irq k = (refl, refl)
step_events-requests now i (t ∷ ts) [] fired irq k = (refl, refl)
step_events-requests now i (t ∷ ts) (e ∷ es) fired irq k =
    let due = is_due now e in
    let irq1 = if due then fire t irq else irq in
    let one = slot-bit due t irq k in
    let rest =
      step_events-requests now (suc i) ts es (if due then bit_or fired (2 ^ i) else fired) irq1 k in
    (
      or-step (due && requests t k) (requested now k ts es) _ (bit irq1.status k) (bit irq.status k)
          rest.0 one.0,
      rest.1 ∙ one.1,
    )

-- A step of the scheduler raises exactly the interrupts of the counters and of the sound processor
-- whose events are due at the new clock: such a line is set, every other line is as it was, and the mask
-- does not change. The lines of the counters are 4, 5 and 6, that of the sound processor is 9, and the
-- other events request none.
pub scheduler_step-requests :
    (s : Scheduler) (cycles : ℕ) (irq : Irq) (k : ℕ)
    → let (s', fired, irq') = scheduler_step s cycles irq in
      (bit irq'.status k
        ≡ (if requested s'.current_cycle k all_types s.events then 1 else bit irq.status k))
      × (irq'.mask ≡ irq.mask)
unfolding scheduler_step
scheduler_step-requests s cycles irq k =
    step_events-requests (u64 (s.current_cycle + cycles)) 0 all_types s.events 0 irq k
