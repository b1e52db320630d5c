-- ===== src/Apu/Levels.antt =====
-- The levels of the four channels and the counters of the unit stay within their ranges.
pub mod Channels
pub mod Access
pub mod Ticks
use gameboi.Base.{
  ℕ, zero, suc, ◌+◌, ◌-◌, ◌*◌, ◌/◌, ◌%◌, ◌^◌, ◌≤◌, ◌<◌, ◌≡◌, Bool, true, false, not, ◌&&◌, ◌==◌,
  ltb, List, [], ◌∷◌, length, length-set, length-replicate, get_or, Option, if◌then◌else◌, shr,
  bit_and, bit_and_mask, sub8, sub16, arith, refl, ap, ◌∙◌,
}
use native.Mathlib.Nat.{div-le_self}
use gameboi.Range
use gameboi.Util.Bit
use gameboi.Apu.Addresses.{cleared_addresses, nr_50_addr, nr_51_addr, nr_52_addr}
use gameboi.Apu.Registers.{
  Control, Envelope, Terminal, initial_volume, should_restart, frequency_value,
}
use gameboi.Apu.Pulse.Bounds.{
  IsBounded, envelope_click-volume, envelope_click-reg, tick-IsBounded, length_click-IsBounded,
  sweep_click-IsBounded, envelope_click-IsBounded, disable-IsBounded, on_write-IsBounded,
}
use gameboi.Apu.Pulse.{PulseChannel}
use gameboi.Apu.Pulse
use gameboi.Apu.Wave.{WaveChannel}
use gameboi.Apu.Wave
use gameboi.Apu.Noise.{NoiseChannel}
use gameboi.Apu.Noise
use gameboi.Apu.Unit.{
  Apu, initial, length_clicks, sweep_click, envelope_clicks, sequenced, step_sequencer,
  tick_channels, sample_for_terminal, generate_samples, tick_once, tick,
}
use gameboi.Apu.Access.{
  channel_1_range, channel_2_range, channel_3_range, channel_4_range, write_register, cleared,
  power_off, on_write,
}
use gameboi.Apu.Levels.Channels.{
  IsWave, IsNoise, tick-IsWave, length_click-IsWave, on_write-IsWave, disable-IsWave, tick-IsNoise,
  length_click-IsNoise, envelope_click-IsNoise, disable-IsNoise, on_write-IsNoise,
}

pub record IsInRange (a : Apu) : Type 0 where
  pub pulse_1 : IsBounded a.channel_1
  pub pulse_2 : IsBounded a.channel_2
  pub wave : IsWave a.channel_3
  pub noise : IsNoise a.channel_4
  pub sequencer : a.frame_sequencer < 8
  pub sequence_counter : a.frame_sequencer_counter ≤ 8192
  pub sample_counter : (1 ≤ a.down_sample_counter) × (a.down_sample_counter ≤ 95)
  pub fill : (a.buffer_fill_amount < 4096) × (a.buffer_fill_amount % 2 ≡ 0)
  pub buffer : length a.sound_buffer ≡ 4096

length_clicks-IsInRange : {a : Apu} → IsInRange a → IsInRange (length_clicks a)
unfolding length_clicks
length_clicks-IsInRange r = record {
  pulse_1 = length_click-IsBounded r.pulse_1;
  pulse_2 = length_click-IsBounded r.pulse_2;
  wave = length_click-IsWave r.wave;
  noise = length_click-IsNoise r.noise;
  sequencer = r.sequencer;
  sequence_counter = r.sequence_counter;
  sample_counter = r.sample_counter;
  fill = r.fill;
  buffer = r.buffer;
}

sweep_click-IsInRange : {a : Apu} → IsInRange a → IsInRange (sweep_click a)
unfolding sweep_click
sweep_click-IsInRange r = record {
  pulse_1 = sweep_click-IsBounded r.pulse_1;
  pulse_2 = r.pulse_2;
  wave = r.wave;
  noise = r.noise;
  sequencer = r.sequencer;
  sequence_counter = r.sequence_counter;
  sample_counter = r.sample_counter;
  fill = r.fill;
  buffer = r.buffer;
}

envelope_clicks-IsInRange : {a : Apu} → IsInRange a → IsInRange (envelope_clicks a)
unfolding envelope_clicks
envelope_clicks-IsInRange r = record {
  pulse_1 = envelope_click-IsBounded r.pulse_1;
  pulse_2 = envelope_click-IsBounded r.pulse_2;
  wave = r.wave;
  noise = envelope_click-IsNoise r.noise;
  sequencer = r.sequencer;
  sequence_counter = r.sequence_counter;
  sample_counter = r.sample_counter;
  fill = r.fill;
  buffer = r.buffer;
}

pub either-IsInRange :
    (t : Bool) {a b : Apu} → IsInRange a → IsInRange b → IsInRange (if t then a else b)
either-IsInRange true r1 r2 = r1
either-IsInRange false r1 r2 = r2

pub sequenced-IsInRange : (step : ℕ) {a : Apu} → IsInRange a → IsInRange (sequenced step a)
unfolding sequenced
sequenced-IsInRange step r =
    let clicked = length_clicks-IsInRange r in
    let swept = length_clicks-IsInRange (sweep_click-IsInRange r) in
    either-IsInRange (step == 0) clicked (
      either-IsInRange (step == 4) clicked (
        either-IsInRange (step == 2) swept (
          either-IsInRange (step == 6) swept
            (either-IsInRange (step == 7) (envelope_clicks-IsInRange r) r))))

-- The counters that a step sets.
pub recounted :
    (sequencer counter samples fill : ℕ) {a : Apu}
    → sequencer < 8
    → counter ≤ 8192
    → (1 ≤ samples) × (samples ≤ 95)
    → (fill < 4096) × (fill % 2 ≡ 0)
    → IsInRange a
    → IsInRange (record a {
      frame_sequencer = sequencer;
      frame_sequencer_counter = counter;
      down_sample_counter = samples;
      buffer_fill_amount = fill;
    })
recounted sequencer counter samples fill h1 h2 h3 h4 r = record {
  pulse_1 = r.pulse_1;
  pulse_2 = r.pulse_2;
  wave = r.wave;
  noise = r.noise;
  sequencer = h1;
  sequence_counter = h2;
  sample_counter = h3;
  fill = h4;
  buffer = r.buffer;
}
