-- ===== src/Examples/Devices.antt =====
-- The timer, the joypad and the link at concrete states.
use gameboi.Base.{◌≡◌, true, false, List, [], ◌∷◌, none, refl, arith}
use gameboi.Util.Bit
use gameboi.Cpu.Interrupt
use gameboi.Cpu.Request.{request_interrupt, is_in_double_speed}
use gameboi.Timer.{Timer, tick}
use gameboi.Timer.Run.{run_ticks}
use gameboi.Timer.Reload.{overflow_tick}
use gameboi.Joypad.{Key, initial, read, write}
use gameboi.Joypad.Laws.{Event, down, up, play, held, Shows, play-Shows, initial-Shows}
use gameboi.Joypad.Reading.{read_held}
use gameboi.Link.{Link, clock_rate, clock_mode, is_transferring, received}
use gameboi.Link
use gameboi.Link.Laws.{IsSending}
use gameboi.Link.Transfer
use gameboi.Link.Transfer.{transfer}
use gameboi.Examples.Machine.{test_cpu}

-- On, at 16384 * 16 Hz, with the selected bit high.
abbrev timer : Timer
timer = record {
  internal_clock = 15;
  tima_reload_cycles = 0;
  timer_clock_overflow_bit = 3;
  tima = 10;
  tma = 0x77;
  tac = 0xFD;
  enabled = true;
  previous_tima_reload_bit = true;
}

abbrev full_timer : Timer
full_timer = record timer { tima = 255 }

overflow_tick_example :
    ((tick 4 (full_timer, test_cpu)).0.tima ≡ 0)
    × ((tick 4 (full_timer, test_cpu)).0.tima_reload_cycles ≡ 2)
    × ((tick 4 (full_timer, test_cpu)).1 ≡ test_cpu)
unfolding Bit.test
overflow_tick_example = overflow_tick 4 full_timer test_cpu (refl, refl, refl) (omega arith)

abbrev low_timer : Timer
low_timer = record timer { internal_clock = 7; previous_tima_reload_bit = false }

abbrev events : List Event
events = down Key.a ∷ down Key.left ∷ up Key.a ∷ []

play-Shows_example : Shows (play events (initial, test_cpu)).0 (held events (λ k. false))
play-Shows_example = play-Shows events initial test_cpu (λ k. false) initial-Shows

read_held_example : Bit.test (read (write 0x20 initial)) 1 ≡ true
read_held_example =
    read_held Key.left 0x20 initial (λ k. false) initial-Shows (omega arith) refl refl

abbrev sending_link : Link
sending_link = record {
  sb = 0xA5;
  sc = 0x83;
  shift_clock = 0;
  shift_counter = 7;
  on_transfer = none;
}

sending : IsSending sending_link test_cpu
unfolding is_transferring clock_mode clock_rate is_in_double_speed Bit.test Bit.extract
sending = record {
  active = refl;
  internal = refl;
  sc_fits = omega arith;
  clock_below = omega arith;
  counter_below = omega arith;
}

transfer_example :
    (is_transferring sending_link ≡ true)
    × (sending_link.sb ≡ 0xA5)
    × (test_cpu ≡ test_cpu)
    × ((Link.tick 16 (sending_link, test_cpu)).0.sb ≡ 0xFF)
    × (is_transferring (Link.tick 16 (sending_link, test_cpu)).0 ≡ false)
    × ((Link.tick 16 (sending_link, test_cpu)).1 ≡ request_interrupt Interrupt.serial test_cpu)
unfolding Transfer.run_ticks received clock_rate is_in_double_speed Bit.test Bit.extract
transfer_example =
    transfer [] 16 sending_link test_cpu sending tt (omega arith) (omega arith) (omega arith)
