-- ===== src/Link/Laws.antt =====
-- A transfer by the internal clock: eight bits, one for each period of the shift clock.
use gameboi.Base.{
  zero, suc, ℕ, ◌+◌, ◌-◌, ◌*◌, ◌/◌, ◌^◌, ◌≤◌, ◌<◌, ◌≡◌, Bool, true, false, ◌==◌, arith, refl,
  if◌then◌else◌,
}
use gameboi.Util.Bit
use gameboi.Util.Bit.{from_bool}
use gameboi.Util.Bit.Laws.{extract_lem}
use gameboi.Cpu.Interrupt
use gameboi.Cpu.State.{Cpu}
use gameboi.Cpu.Request.{request_interrupt, is_in_double_speed}
use gameboi.Link.{
  Link, Mode, is_transferring, clock_rate, clock_mode, received, count_bit, advance, tick,
}

rate_table :
    (e : ℕ) (double : Bool)
    → e < 2
    → 512 / 2 ^ (e * 5 + from_bool double)
      ≡ (if e == 0 then if double then 256 else 512 else if double then 8 else 16)
rate_table zero true h = refl
rate_table zero false h = refl
rate_table (suc zero) true h = refl
rate_table (suc zero) false h = refl
rate_table (suc (suc e)) b h = absurd (omega arith)

-- Bit 1 of SC and the processor's double speed shorten the period of the shift clock.
pub clock_rate_lem :
    (l : Link) (cpu : Cpu)
    → clock_rate l cpu ≡ (
        if Bit.extract l.sc 1 == 0
        then if is_in_double_speed cpu then 256 else 512
        else if is_in_double_speed cpu
        then 8
        else 16)
unfolding clock_rate
clock_rate_lem l cpu =
    rate_table (Bit.extract l.sc 1) (is_in_double_speed cpu) (omega (arith, extract_lem l.sc 1))

pub rate_range : (l : Link) (cpu : Cpu) → (8 ≤ clock_rate l cpu) × (clock_rate l cpu ≤ 512)
rate_range l cpu = ground (arith, clock_rate_lem l cpu)

-- A transfer under way by the internal clock, at a place within its eight bits.
pub record IsSending (l : Link) (cpu : Cpu) : Type 0 where
  pub active : is_transferring l ≡ true
  pub internal : clock_mode l ≡ Mode.internal
  pub sc_fits : l.sc < 256
  pub clock_below : l.shift_clock < clock_rate l cpu
  pub counter_below : l.shift_counter < 8

-- One tick, by how far the shift clock gets.
module _ (cycles : ℕ) (l : Link) (cpu : Cpu) (s : IsSending l cpu)
    (h : cycles ≤ clock_rate l cpu) where
  pub tick_waits :
      l.shift_clock + cycles < clock_rate l cpu
      → tick cycles (l, cpu) ≡ (record l { shift_clock = l.shift_clock + cycles }, cpu)
  unfolding tick advance
  tick_waits short = ground (arith, s.active, s.internal, rate_range l cpu)

  pub tick_shifts :
      clock_rate l cpu ≤ l.shift_clock + cycles
      → l.shift_counter < 7
      → tick cycles (l, cpu) ≡ (
        record l {
          shift_clock = l.shift_clock + cycles - clock_rate l cpu;
          shift_counter = l.shift_counter + 1;
        },
        cpu,
      )
  unfolding tick advance count_bit
  tick_shifts full few = ground (arith, s.active, s.internal, rate_range l cpu, s.clock_below)

  pub tick_ends :
      clock_rate l cpu ≤ l.shift_clock + cycles
      → l.shift_counter ≡ 7
      → tick cycles (l, cpu) ≡ (
        record l {
          shift_clock = l.shift_clock + cycles - clock_rate l cpu;
          shift_counter = 0;
          sb = received l;
          sc = Bit.reset l.sc 7;
        },
        request_interrupt Interrupt.serial cpu,
      )
  unfolding tick advance count_bit received
  tick_ends full last = ground (arith, s.active, s.internal, rate_range l cpu, s.clock_below)
