-- ===== src/Timer.antt =====
-- gameboy/include/gameboy/timer/timer.h and gameboy/src/timer/timer.cpp. `tima_reload_cycles_` is
-- an `int8_t`, here its two's complement pattern.
pub mod Laws
pub mod Count
pub mod Run
pub mod Reload
use gameboi.Base.{
  ℕ, ◌+◌, Bool, true, false, not, ◌&&◌, ◌==◌, List, [], ◌∷◌, get_or, if◌then◌else◌, bit_and, bit_or,
  shr, u8, u16, sub8, is_positive8, below8,
}
use gameboi.Register8
use gameboi.Util.Bit
use gameboi.Cpu.Interrupt
use gameboi.Cpu.State.{Cpu}
use gameboi.Cpu.Request.{request_interrupt}

abbrev pub div_addr : ℕ
div_addr = 0xFF04

abbrev pub tima_addr : ℕ
tima_addr = 0xFF05

abbrev pub tma_addr : ℕ
tma_addr = 0xFF06

abbrev pub tac_addr : ℕ
tac_addr = 0xFF07

pub record Timer : Type 0 where
  pub internal_clock : ℕ
  pub tima_reload_cycles : ℕ
  pub timer_clock_overflow_bit : ℕ
  pub tima : ℕ
  pub tma : ℕ
  pub tac : ℕ
  pub enabled : Bool
  pub previous_tima_reload_bit : Bool

-- `reset`; the delegates that it registers are in `System`.
unfoldable pub initial : Timer
initial = record {
  internal_clock = 0;
  tima_reload_cycles = 0;
  timer_clock_overflow_bit = 9;
  tima = 0;
  tma = 0;
  tac = 0;
  enabled = false;
  previous_tima_reload_bit = false;
}

-- 4, 256, 64 and 16 KHz.
unfoldable pub timer_clock_overflow_index_select : Timer → ℕ
timer_clock_overflow_index_select t = get_or (9 ∷ 3 ∷ 5 ∷ 7 ∷ []) (bit_and t.tac 0x03) 0

unfoldable pub update_internal_clock : ℕ → Timer → Timer
update_internal_clock new_internal_clock t =
    let tima_reload_bit = t.enabled && Bit.test new_internal_clock t.timer_clock_overflow_bit in
    let tima' = Register8.add_assign t.tima 1 in
    let falls = not tima_reload_bit && t.previous_tima_reload_bit in
    record t {
      internal_clock = new_internal_clock;
      tima = if falls then tima' else t.tima;
      tima_reload_cycles =
          if falls then if tima' == 0 then 6 else t.tima_reload_cycles else t.tima_reload_cycles;
      previous_tima_reload_bit = tima_reload_bit;
    }

unfoldable pub tick : ℕ → Timer × Cpu → Timer × Cpu
tick cycles (t, cpu) =
    let t' = update_internal_clock (u16 (t.internal_clock + cycles)) t in
    let left = sub8 t'.tima_reload_cycles cycles in
    if is_positive8 t'.tima_reload_cycles
    then if below8 left 1
      then (
        record t' { tima_reload_cycles = 0; tima = t'.tma },
        request_interrupt Interrupt.timer cpu,
      )
      else (record t' { tima_reload_cycles = left }, cpu)
    else (t', cpu)

unfoldable pub on_read : ℕ → Timer → ℕ
on_read address t =
    if address == div_addr
    then u8 (shr t.internal_clock 8)
    else if address == tima_addr
    then t.tima
    else if address == tma_addr
    then t.tma
    else if address == tac_addr
    then t.tac
    else 0

unfoldable pub on_write : ℕ → ℕ → Timer → Timer
on_write address val t =
    let tac' = bit_or val 0xF8 in
    let selected = record t { tac = tac'; enabled = Bit.test tac' 2 } in
    if address == div_addr
    then update_internal_clock 0 t
    else if address == tima_addr
    then if below8 t.tima_reload_cycles 4
      then record t { tima_reload_cycles = 0; tima = val }
      else t
    else if address == tma_addr
    then record t { tma = val }
    else if address == tac_addr
    then record selected { timer_clock_overflow_bit = timer_clock_overflow_index_select selected }
    else t
