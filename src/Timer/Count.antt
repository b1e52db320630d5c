-- ===== src/Timer/Count.antt =====
-- How often TIMA counts: at every fall of the selected clock bit that a tick can see.
use gameboi.Base.{
  ℕ, ◌+◌, ◌-◌, ◌*◌, ◌/◌, ◌%◌, ◌^◌, ◌≤◌, ◌<◌, ◌≡◌, true, not, ◌&&◌, arith, if◌then◌else◌, inl, inr,
  sym,
}
use mathlib.Core.Path.{subst}
use gameboi.Util.Bit
use gameboi.Util.Bit.Laws.{test_lem}
use gameboi.Cpu.State.{Cpu}
use gameboi.Timer.{Timer, update_internal_clock, tick}
use gameboi.Timer.Laws.{IsValid, IsClockBit}

-- The remembered bit is the enabled clock bit.
abbrev pub IsSettled : Timer → Type 0
IsSettled t =
    t.previous_tima_reload_bit ≡ (t.enabled && Bit.test t.internal_clock t.timer_clock_overflow_bit)

pub update-IsSettled : (new : ℕ) (t : Timer) → IsSettled (update_internal_clock new t)
unfolding update_internal_clock
update-IsSettled new t = ground arith

pub tick-IsSettled : (cycles : ℕ) (t : Timer) (cpu : Cpu) → IsSettled (tick cycles (t, cpu)).0
unfolding tick
tick-IsSettled cycles t cpu =
    ground (arith, update-IsSettled ((t.internal_clock + cycles) % 65536) t)

-- Periods of `2 ^ (k + 1)` cycles that end within the tick.
abbrev pub periods : ℕ → ℕ → ℕ → ℕ
periods k clock cycles = (clock + cycles) / (2 * 2 ^ k) - clock / (2 * 2 ^ k)

-- The clock bit `k` falls in a tick of at most half a period exactly when a period ends in it.
abbrev CountsFalls : ℕ → Type 0
CountsFalls k =
    (clock cycles : ℕ)
    → clock < 65536
    → cycles ≤ 2 ^ k
    → (if not (Bit.test ((clock + cycles) % 65536) k) && Bit.test clock k then 1 else 0)
      ≡ periods k clock cycles

falls_3 : CountsFalls 3
falls_3 clock cycles h hc = ground (arith, test_lem ((clock + cycles) % 65536) 3, test_lem clock 3)

falls_5 : CountsFalls 5
falls_5 clock cycles h hc = ground (arith, test_lem ((clock + cycles) % 65536) 5, test_lem clock 5)

falls_7 : CountsFalls 7
falls_7 clock cycles h hc = ground (arith, test_lem ((clock + cycles) % 65536) 7, test_lem clock 7)

falls_9 : CountsFalls 9
falls_9 clock cycles h hc = ground (arith, test_lem ((clock + cycles) % 65536) 9, test_lem clock 9)

falls : (k : ℕ) → IsClockBit k → CountsFalls k
falls k (inl e) = subst CountsFalls (sym e) falls_9
falls k (inr (inl e)) = subst CountsFalls (sym e) falls_3
falls k (inr (inr (inl e))) = subst CountsFalls (sym e) falls_5
falls k (inr (inr (inr e))) = subst CountsFalls (sym e) falls_7

-- In a tick no longer than half a period of the selected clock, an enabled and settled timer
-- counts TIMA up by exactly the periods that end in it, modulo 256.
pub tima-update :
    {t : Timer} (cycles : ℕ)
    → IsValid t
    → IsSettled t
    → t.enabled ≡ true
    → cycles ≤ 2 ^ t.timer_clock_overflow_bit
    → (update_internal_clock ((t.internal_clock + cycles) % 65536) t).tima
      ≡ (t.tima + periods t.timer_clock_overflow_bit t.internal_clock cycles) % 256
unfolding update_internal_clock
tima-update {t} cycles v s e h =
    ground (
      arith,
      falls t.timer_clock_overflow_bit v.bit_selected t.internal_clock cycles v.clock_fits h,
    )
