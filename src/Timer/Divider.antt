-- ===== src/Timer/Divider.antt =====
-- The divider by 8 of the third counter loses no cycle.
use psx_emulator_em_c.Base.{ℕ, ◌+◌, ◌*◌, ◌^◌, ◌<◌, ◌≡◌, arith, true, u32, ◌>>◌, low_bits}
use psx_emulator_em_c.Timer.State.{TimerUnit, timer2_div8}
use psx_emulator_em_c.Timer.Count.{timer_ticks}

-- What the divider makes of the cycles: the ticks, and the unit with the cycles that are left over.
abbrev divided : TimerUnit → ℕ → ℕ × TimerUnit
divided u cycles =
    let total = u32 (u.frac_rem + cycles) in (total >> 3, record u { frac_rem = low_bits total 3 })

timer_ticks-divided :
    (u : TimerUnit) (cycles dot hblank : ℕ)
    → timer2_div8 u ≡ true
    → timer_ticks u 2 cycles dot hblank ≡ divided u cycles
unfolding timer_ticks
timer_ticks-divided u cycles dot hblank h = rw h

divided-timer2_div8 :
    (u : TimerUnit) (a : ℕ) → timer2_div8 u ≡ true → timer2_div8 (divided u a).1 ≡ true
unfolding timer2_div8
divided-timer2_div8 u a h = h

divided-add :
    (u : TimerUnit) (a b : ℕ)
    → u.frac_rem + a + b < 2 ^ 32
    → let (ta, u1) = divided u a in
      let (tb, u2) = divided u1 b in
      let (t, u') = divided u (a + b) in
      (t ≡ ta + tb) × (u'.frac_rem ≡ u2.frac_rem) × (8 * t + u'.frac_rem ≡ u.frac_rem + (a + b))
divided-add u a b h = (omega arith, omega arith, omega arith)

-- When the third counter counts every eighth cycle, it does not matter how the cycles are cut
-- into steps: a step of a cycles and then one of b give as many ticks, and leave as many
-- cycles over, as one step of a + b, and every cycle is either in a tick, of 8 cycles, or left
-- over. The cycles, with those left over before, fit an unsigned 32-bit number.
pub timer_ticks-add :
    (u : TimerUnit) (a b dot hblank : ℕ)
    → timer2_div8 u ≡ true
    → u.frac_rem + a + b < 2 ^ 32
    → let (ta, u1) = timer_ticks u 2 a dot hblank in
      let (tb, u2) = timer_ticks u1 2 b dot hblank in
      let (t, u') = timer_ticks u 2 (a + b) dot hblank in
      (t ≡ ta + tb) × (u'.frac_rem ≡ u2.frac_rem) × (8 * t + u'.frac_rem ≡ u.frac_rem + (a + b))
timer_ticks-add u a b dot hblank h small =
    rw
      (
        timer_ticks-divided u (a + b) dot hblank h,
        timer_ticks-divided u a dot hblank h,
        timer_ticks-divided (divided u a).1 b dot hblank (divided-timer2_div8 u a h),
      )
      (divided-add u a b small)
