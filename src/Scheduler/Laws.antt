-- ===== src/Scheduler/Laws.antt =====
-- Which events a step of the scheduler fires, and that the distance to the next event is exact.
use psx_emulator_em_c.Base.{
  ℕ, zero, suc, ◌+◌, ◌-◌, ◌^◌, ◌<◌, ◌≤◌, ◌≡◌, refl, ap, sym, arith, Bool, true, false, ◌&&◌, List,
  [], ◌∷◌, ltb, leb, ◌==◌, if◌then◌else◌, length, get_or, u64, bit, bit_or, bit-bit_or, zero-bit,
  power-bit_ne, power-bit_self, ◌∙◌, of_bool, All,
}
use native.Mathlib.Nat.{mod-eq_of_lt, add-zero}
use psx_emulator_em_c.Irq.{Irq}
use psx_emulator_em_c.Scheduler.{
  EventType, Event, Scheduler, index, all_types, idle, event_at, uint32_max, uint64_max, nearest,
  scheduler_cycles_until_next_event, fire, is_due, Stepped, step_events, scheduler_step,
}

-- `nearest` is a lower bound of the pending times, and one of them or the start value.
nearest-le : (best : ℕ) (es : List Event) → nearest best es ≤ best
unfolding nearest
nearest-le best [] = omega arith
nearest-le best (e ∷ es) =
    ground (arith, nearest-le (if e.active && ltb e.fire_at best then e.fire_at else best) es)

-- An event that is pending comes no earlier.
abbrev NotBefore : ℕ → Event → Type 0
NotBefore n e = e.active ≡ true → n ≤ e.fire_at

nearest-NotBefore : (best : ℕ) (es : List Event) → All (NotBefore (nearest best es)) es
unfolding nearest
nearest-NotBefore best [] = tt
nearest-NotBefore best (e ∷ es) = (
  λ h. ground (arith, nearest-le (if e.active && ltb e.fire_at best then e.fire_at else best) es),
  nearest-NotBefore (if e.active && ltb e.fire_at best then e.fire_at else best) es,
)

-- No event of the list is due.
abbrev Quiet : ℕ → Event → Type 0
Quiet now e = is_due now e ≡ false

Quiet-NotBefore :
    (now n : ℕ) (es : List Event) → now < n → All (NotBefore n) es → All (Quiet now) es
Quiet-NotBefore now n [] h a = tt
Quiet-NotBefore now n (e ∷ es) h a = (first e.active e.fire_at a.0, Quiet-NotBefore now n es h a.1)
  where
    first : (b : Bool) (at : ℕ) → (b ≡ true → n ≤ at) → (b && leb at now) ≡ false
    first true at g = ground (arith, g refl)
    first false at g = refl

step_events-Quiet :
    (now i : ℕ) (ts : List EventType) (es : List Event) (fired : ℕ) (irq : Irq)
    → All (Quiet now) es
    → step_events now i ts es fired irq ≡ record { events = es; fired = fired; irq = irq }
unfolding step_events
step_events-Quiet now i [] [] fired irq q = refl
step_events-Quiet now i [] (e ∷ es) fired irq q = refl
step_events-Quiet now i (t ∷ ts) [] fired irq q = refl
step_events-Quiet now i (t ∷ ts) (e ∷ es) fired irq q = rw q.0 (
    ap (λ (r : Stepped). record r { events = e ∷ r.events })
      (step_events-Quiet now (suc i) ts es fired irq q.1))

before_nearest :
    (s : Scheduler) (cycles : ℕ)
    → s.current_cycle + cycles < 2 ^ 64 - 1
    → cycles < scheduler_cycles_until_next_event s
    → s.current_cycle + cycles < nearest uint64_max s.events
unfolding scheduler_cycles_until_next_event
before_nearest s cycles small h = go (nearest uint64_max s.events) s.current_cycle small h
  where
    go :
        (n c : ℕ)
        → c + cycles < 2 ^ 64 - 1
        → cycles < (
            if n == uint64_max
            then uint32_max
            else if leb n c
            then 0
            else if ltb uint32_max (n - c)
            then uint32_max
            else n - c)
        → c + cycles < n
    go n c small h = ground arith

-- Until the distance that `scheduler_cycles_until_next_event` gives has passed, a step fires
-- nothing: it moves the clock, and the slots and the interrupt controller stay as they are. The
-- clock is to stay below 2^64 - 1.
pub scheduler_step-before :
    (s : Scheduler) (cycles : ℕ) (irq : Irq)
    → s.current_cycle + cycles < 2 ^ 64 - 1
    → cycles < scheduler_cycles_until_next_event s
    → scheduler_step s cycles irq ≡ (record s { current_cycle = s.current_cycle + cycles }, 0, irq)
unfolding scheduler_step
scheduler_step-before s cycles irq small h =
    let now = u64 (s.current_cycle + cycles) in
    let e : now ≡ s.current_cycle + cycles = mod-eq_of_lt (omega arith) in
    let late : now < nearest uint64_max s.events =
      omega (arith, e, before_nearest s cycles small h) in
    rw (
      step_events-Quiet now 0 all_types s.events 0 irq (
          Quiet-NotBefore now (nearest uint64_max s.events) s.events late
            (nearest-NotBefore uint64_max s.events)),
      e,
    )

-- What later slots add to the mask leaves the bits of earlier ones.
step_events-earlier :
    (now i : ℕ) (ts : List EventType) (es : List Event) (fired : ℕ) (irq : Irq) (k : ℕ)
    → k < i
    → bit (step_events now i ts es fired irq).fired k ≡ bit fired k
unfolding step_events
step_events-earlier now i [] [] fired irq k h = refl
step_events-earlier now i [] (e ∷ es) fired irq k h = refl
step_events-earlier now i (t ∷ ts) [] fired irq k h = refl
step_events-earlier now i (t ∷ ts) (e ∷ es) fired irq k h =
    step_events-earlier now (suc i) ts es (if is_due now e then bit_or fired (2 ^ i) else fired)
      (if is_due now e then fire t irq else irq) k (omega arith)
    ∙ added (is_due now e)
  where
    added : (b : Bool) → bit (if b then bit_or fired (2 ^ i) else fired) k ≡ bit fired k
    added true = omega (arith, bit-bit_or k fired (2 ^ i), power-bit_ne i k (omega arith))
    added false = refl

add_suc : (i k : ℕ) → i + suc k ≡ suc i + k
add_suc i k = omega arith

-- Bit `i + k` of the mask is whether slot `k` of the rest was due.
step_events-fired :
    (now i : ℕ) (ts : List EventType) (es : List Event) (fired : ℕ) (irq : Irq) (k : ℕ) (d : Event)
    → length ts ≡ length es
    → k < length es
    → bit fired (i + k) ≡ 0
    → bit (step_events now i ts es fired irq).fired (i + k) ≡ of_bool (is_due now (get_or es k d))
unfolding step_events
step_events-fired now i ts [] fired irq k d hl h hb = absurd (omega arith)
step_events-fired now i [] (e ∷ es) fired irq k d hl h hb = absurd (omega arith)
step_events-fired now i (t ∷ ts) (e ∷ es) fired irq zero d hl h hb =
    step_events-earlier now (suc i) ts es (if is_due now e then bit_or fired (2 ^ i) else fired)
      (if is_due now e then fire t irq else irq) (i + 0) (omega arith)
    ∙ added (is_due now e)
  where
    added : (b : Bool) → bit (if b then bit_or fired (2 ^ i) else fired) (i + 0) ≡ of_bool b
    added true =
        omega
          (arith, bit-bit_or (i + 0) fired (2 ^ i), power-bit_self i, ap (bit (2 ^ i)) (add-zero i))
    added false = hb
step_events-fired now i (t ∷ ts) (e ∷ es) fired irq (suc k) d hl h hb =
    ap (bit (step_events now i (t ∷ ts) (e ∷ es) fired irq).fired) (add_suc i k)
    ∙ step_events-fired now (suc i) ts es (if is_due now e then bit_or fired (2 ^ i) else fired)
        (if is_due now e then fire t irq else irq) k d (omega arith) (omega arith)
        (added (is_due now e))
  where
    added : (b : Bool) → bit (if b then bit_or fired (2 ^ i) else fired) (suc i + k) ≡ 0
    added true = omega (
      arith,
      bit-bit_or (suc i + k) fired (2 ^ i),
      power-bit_ne i (suc i + k) (omega arith),
      hb,
      ap (bit fired) (add_suc i k),
    )
    added false = omega (arith, hb, ap (bit fired) (add_suc i k))

-- The slots after the step: those that were due are off, and no other field changes.
step_events-slot :
    (now i : ℕ) (ts : List EventType) (es : List Event) (fired : ℕ) (irq : Irq) (k : ℕ) (d : Event)
    → length ts ≡ length es
    → k < length es
    → get_or (step_events now i ts es fired irq).events k d ≡ (
        if is_due now (get_or es k d)
        then record (get_or es k d) { active = false }
        else get_or es k d)
unfolding step_events
step_events-slot now i ts [] fired irq k d hl h = absurd (omega arith)
step_events-slot now i [] (e ∷ es) fired irq k d hl h = absurd (omega arith)
step_events-slot now i (t ∷ ts) (e ∷ es) fired irq zero d hl h = refl
step_events-slot now i (t ∷ ts) (e ∷ es) fired irq (suc k) d hl h =
    step_events-slot now (suc i) ts es (if is_due now e then bit_or fired (2 ^ i) else fired)
      (if is_due now e then fire t irq else irq) k d (omega arith) (omega arith)

step_events-length :
    (now i : ℕ) (ts : List EventType) (es : List Event) (fired : ℕ) (irq : Irq)
    → length (step_events now i ts es fired irq).events ≡ length es
unfolding step_events
step_events-length now i [] [] fired irq = refl
step_events-length now i [] (e ∷ es) fired irq = refl
step_events-length now i (t ∷ ts) [] fired irq = refl
step_events-length now i (t ∷ ts) (e ∷ es) fired irq = ap suc (
    step_events-length now (suc i) ts es (if is_due now e then bit_or fired (2 ^ i) else fired)
      (if is_due now e then fire t irq else irq))

index-lt : (t : EventType) → index t < 13
index-lt t = ground arith

-- On 13 slots, a step moves the clock by the cycles passed, modulo 2^64, and for every event type: the bit of the type in the
-- mask that it returns says whether the event was pending at a time that the clock has reached, such an
-- event is pending no longer, and every other slot is as it was. There are 13 slots afterwards.
pub scheduler_step_lem :
    (s : Scheduler) (cycles : ℕ) (irq : Irq) (t : EventType)
    → length s.events ≡ 13
    → let (s', fired, irq') = scheduler_step s cycles irq in
      let due = (event_at s t).active && leb (event_at s t).fire_at s'.current_cycle in
      (s'.current_cycle ≡ u64 (s.current_cycle + cycles))
      × (bit fired (index t) ≡ of_bool due)
      × (event_at s' t ≡ (if due then record (event_at s t) { active = false } else event_at s t))
      × (length s'.events ≡ 13)
unfolding scheduler_step
scheduler_step_lem s cycles irq t v =
    let now = u64 (s.current_cycle + cycles) in
    let h : index t < length s.events = omega (arith, index-lt t) in
    let e : 0 + index t ≡ index t = omega arith in
    let mask = (step_events now 0 all_types s.events 0 irq).fired in
    (
      refl,
      ap (bit mask) (sym e)
          ∙ step_events-fired now 0 all_types s.events 0 irq (index t) (idle t) (sym v) h
              (zero-bit (0 + index t)),
      step_events-slot now 0 all_types s.events 0 irq (index t) (idle t) (sym v) h,
      step_events-length now 0 all_types s.events 0 irq ∙ v,
    )
