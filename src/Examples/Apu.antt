-- ===== src/Examples/Apu.antt =====
-- The sound unit at concrete states.
use gameboi.Base.{ℕ, ◌≡◌, List, length-replicate, arith, refl}
use gameboi.Util.Bit
use gameboi.Apu.Wave.{WaveChannel}
use gameboi.Apu.Wave
use gameboi.Apu.Unit
use gameboi.Apu.Addresses.{nr_52_addr}
use gameboi.Apu.Access.{on_write, on_read}
use gameboi.Apu.Levels.{IsInRange}
use gameboi.Apu.Levels.Ticks.{tick-IsInRange}
use gameboi.Apu.Levels.Access.{on_write-IsInRange}
use gameboi.Apu.Power.{on_write-off}

initial-IsInRange : IsInRange Unit.initial
unfolding Unit.initial
initial-IsInRange = record {
  pulse_1 = record {
    volume = omega arith;
    output = omega arith;
    index = omega arith;
    duty_index = omega arith;
    envelope = omega arith;
  };
  pulse_2 = record {
    volume = omega arith;
    output = omega arith;
    index = omega arith;
    duty_index = omega arith;
    envelope = omega arith;
  };
  wave = record { output = omega arith };
  noise = record { volume = omega arith; output = omega arith; envelope = omega arith };
  sequencer = omega arith;
  sequence_counter = omega arith;
  sample_counter = (omega arith, omega arith);
  fill = (omega arith, omega arith);
  buffer = length-replicate {A = ℕ} 4096 0;
}

abbrev first_level : List ℕ → ℕ → ℕ
first_level levels volume = volume

tick-IsInRange_example : IsInRange (Unit.tick first_level 24 Unit.initial).0
tick-IsInRange_example = tick-IsInRange first_level 24 Unit.initial initial-IsInRange

on_write-IsInRange_example : IsInRange (on_write 0xFF14 0x87 Unit.initial)
on_write-IsInRange_example =
    on_write-IsInRange 0xFF14 0x87 Unit.initial (omega arith) initial-IsInRange

abbrev short_wave : WaveChannel
short_wave = Wave.make 5 0x20 (record { low = 0; freq_control = 0x40 })

on_write-off_example :
    let off = on_write nr_52_addr 0 Unit.initial in
    (on_write 0xFF14 0x87 off ≡ off) × (on_read nr_52_addr off ≡ 0x70)
unfolding Bit.test
on_write-off_example = on_write-off 0 0xFF14 0x87 Unit.initial refl (omega arith)
