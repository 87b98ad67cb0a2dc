-- ===== src/Scheduler.antt =====
-- scheduler.h and scheduler.c: one pending event of each type, fired when the cycle counter
-- reaches it.
pub mod Laws
pub mod Requests
use psx_emulator_em_c.Base.{
  ℕ, zero, suc, ◌+◌, ◌-◌, ◌^◌, Bool, true, false, ◌&&◌, ◌||◌, not, List, [], ◌∷◌, ltb, leb, ◌==◌,
  if◌then◌else◌, length, get_or, set, u64, bit_or,
}
use psx_emulator_em_c.Irq.{Irq, IrqFlag, irq_timer0, irq_timer1, irq_timer2, irq_spu, irq_assert}

-- `EventType`; the position is the enumerator's value.
pub data EventType : Type 0 where
  event_vblank event_timer0 event_timer1 event_timer2 event_cdrom_irq event_spu_sample : EventType
  event_dma0 event_dma1 event_dma2 event_dma3 event_dma4 event_dma5 event_dma6 : EventType

abbrev pub index : EventType → ℕ
index event_vblank = 0
index event_timer0 = 1
index event_timer1 = 2
index event_timer2 = 3
index event_cdrom_irq = 4
index event_spu_sample = 5
index event_dma0 = 6
index event_dma1 = 7
index event_dma2 = 8
index event_dma3 = 9
index event_dma4 = 10
index event_dma5 = 11
index event_dma6 = 12

abbrev pub all_types : List EventType
all_types =
    event_vblank ∷ event_timer0 ∷ event_timer1 ∷ event_timer2 ∷ event_cdrom_irq ∷ event_spu_sample
    ∷ event_dma0 ∷ event_dma1 ∷ event_dma2 ∷ event_dma3 ∷ event_dma4 ∷ event_dma5 ∷ event_dma6 ∷ []

-- `Event`; `fire_at` is a `uint64_t`.
pub record Event : Type 0 where
  pub fire_at : ℕ
  pub type : EventType
  pub active : Bool

pub record Scheduler : Type 0 where
  pub current_cycle : ℕ
  pub events : List Event

abbrev pub idle : EventType → Event
idle t = record { fire_at = 0; type = t; active = false }

abbrev pub fresh : List EventType → List Event
fresh [] = []
fresh (t ∷ ts) = idle t ∷ fresh ts

unfoldable pub scheduler_init : Scheduler
scheduler_init = record { current_cycle = 0; events = fresh all_types }

abbrev pub event_at : Scheduler → EventType → Event
event_at s t = get_or s.events (index t) (idle t)

unfoldable pub scheduler_schedule : Scheduler → EventType → ℕ → Scheduler
scheduler_schedule s t delta_cycles = record s {
  events =
      set s.events (index t)
        (record (event_at s t) { fire_at = u64 (s.current_cycle + delta_cycles); active = true });
}

unfoldable pub scheduler_cancel : Scheduler → EventType → Scheduler
scheduler_cancel s t = record s {
  events = set s.events (index t) (record (event_at s t) { active = false });
}

abbrev pub uint32_max : ℕ
uint32_max = 2 ^ 32 - 1

abbrev pub uint64_max : ℕ
uint64_max = 2 ^ 64 - 1

-- The loop of `scheduler_cycles_until_next_event`.
unfoldable pub nearest : ℕ → List Event → ℕ
nearest best [] = best
nearest best (e ∷ es) = nearest (if e.active && ltb e.fire_at best then e.fire_at else best) es

unfoldable pub scheduler_cycles_until_next_event : Scheduler → ℕ
scheduler_cycles_until_next_event s =
    let next = nearest uint64_max s.events in
    if next == uint64_max
    then uint32_max
    else if leb next s.current_cycle
    then 0
    else if ltb uint32_max (next - s.current_cycle)
    then uint32_max
    else next - s.current_cycle

-- The `switch` of `scheduler_step`: the other events are handled by the caller.
unfoldable pub fire : EventType → Irq → Irq
fire event_timer0 irq = irq_assert irq irq_timer0
fire event_timer1 irq = irq_assert irq irq_timer1
fire event_timer2 irq = irq_assert irq irq_timer2
fire event_spu_sample irq = irq_assert irq irq_spu
fire _ irq = irq

abbrev pub is_due : ℕ → Event → Bool
is_due now e = e.active && leb e.fire_at now

pub record Stepped : Type 0 where
  pub events : List Event
  pub fired : ℕ
  pub irq : Irq

-- The loop of `scheduler_step` from slot `i` on. The `switch` is over `(EventType)i`: the list
-- of types runs along with the slots.
step_events : ℕ → ℕ → List EventType → List Event → ℕ → Irq → Stepped
step_events now i (t ∷ ts) (e ∷ es) fired irq =
    let due = is_due now e in
    let rest =
      step_events now (suc i) ts es (if due then bit_or fired (2 ^ i) else fired)
        (if due then fire t irq else irq) in
    record rest { events = (if due then record e { active = false } else e) ∷ rest.events }
step_events now i ts es fired irq = record { events = es; fired = fired; irq = irq }

-- The new scheduler and controller, and the bit mask of the events that fired.
unfoldable pub scheduler_step : Scheduler → ℕ → Irq → Scheduler × ℕ × Irq
unfolding step_events
scheduler_step s cycles irq =
    let now = u64 (s.current_cycle + cycles) in
    let r = step_events now 0 all_types s.events 0 irq in
    (record { current_cycle = now; events = r.events }, r.fired, r.irq)
