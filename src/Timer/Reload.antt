-- ===== src/Timer/Reload.antt =====
-- The reload of TIMA after an overflow: its delay, its interrupt, and its cancellation.
use gameboi.Base.{
  ℕ, ◌+◌, ◌-◌, ◌%◌, ◌≤◌, ◌<◌, ◌≡◌, true, false, arith, not, ◌&&◌, ltb, leb, if◌then◌else◌,
}
use gameboi.Util.Bit
use gameboi.Cpu.Interrupt
use gameboi.Cpu.State.{Cpu}
use gameboi.Cpu.Request.{request_interrupt}
use gameboi.Timer.{Timer, tima_addr, update_internal_clock, tick, on_write}
use gameboi.Timer.Laws.{IsValid}

-- The tick in which TIMA overflows.
abbrev pub Overflows : ℕ → Timer → Type 0
Overflows cycles t =
    (t.tima ≡ 255)
    × (t.previous_tima_reload_bit ≡ true)
    × ((t.enabled && Bit.test ((t.internal_clock + cycles) % 65536) t.timer_clock_overflow_bit)
        ≡ false)

-- A tick of fewer than 6 cycles in which TIMA overflows leaves TIMA at 0 with the reload pending
-- and requests nothing; one of 6 to 128 cycles reloads TIMA from TMA and requests the timer
-- interrupt at once.
pub overflow_tick :
    (cycles : ℕ) (t : Timer) (cpu : Cpu)
    → Overflows cycles t
    → cycles ≤ 128
    → let r = tick cycles (t, cpu) in
      (r.0.tima ≡ (if ltb cycles 6 then 0 else t.tma))
      × (r.0.tima_reload_cycles ≡ 6 - cycles)
      × (r.1 ≡ (if ltb cycles 6 then cpu else request_interrupt Interrupt.timer cpu))
unfolding tick update_internal_clock
overflow_tick cycles t cpu o h = ground arith

-- With a reload pending and the selected bit low, a write to TIMA in the last three cycles before
-- the reload cancels it: the value written stays and no interrupt comes. A write before that is
-- lost, and the reload happens in the tick that reaches it.
tick-write_tima :
    (cycles val : ℕ) (t : Timer) (cpu : Cpu)
    → IsValid t
    → 0 < t.tima_reload_cycles
    → t.previous_tima_reload_bit ≡ false
    → cycles ≤ 128
    → let r = tick cycles (on_write tima_addr val t, cpu) in
      let cancelled = ltb t.tima_reload_cycles 4 in
      let reached = leb t.tima_reload_cycles cycles in
      (r.0.tima ≡ (if cancelled then val else if reached then t.tma else t.tima))
      × (r.1 ≡ (if not cancelled && reached then request_interrupt Interrupt.timer cpu else cpu))
unfolding tick update_internal_clock on_write
tick-write_tima cycles val t cpu v pending low h = ground arith
