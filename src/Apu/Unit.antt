-- ===== src/Apu/Unit.antt =====
-- gameboy/include/gameboy/apu/apu.h and gameboy/src/apu/apu.cpp. The buffers that only a build with
-- the debugger has are left out. A sample is computed in floating point: the arithmetic is the
-- parameter `mix`, from the outputs of the channels that are on at the terminal and its volume.
use gameboi.Base.{
  ℕ, zero, suc, ◌+◌, Bool, true, false, ◌==◌, List, [], ◌∷◌, set, replicate, Option, none, some,
  if◌then◌else◌, u8, u16, sub8, sub16,
}
use gameboi.Apu.Registers.{
  Control, Terminal, FrequencyData, terminal_volume, channel_enabled_on_terminal,
}
use gameboi.Apu.Pulse.{PulseChannel}
use gameboi.Apu.Pulse
use gameboi.Apu.Wave.{WaveChannel}
use gameboi.Apu.Wave
use gameboi.Apu.Noise.{NoiseChannel}
use gameboi.Apu.Noise

abbrev pub frame_sequence_count : ℕ
frame_sequence_count = 8192

abbrev pub frame_sequencer_max : ℕ
frame_sequencer_max = 8

-- 4194304 / 44100
abbrev pub down_sample_count : ℕ
down_sample_count = 95

abbrev pub sample_size : ℕ
sample_size = 4096

pub record Apu : Type 0 where
  pub power_on : Bool
  pub channel_1 : PulseChannel
  pub channel_2 : PulseChannel
  pub channel_3 : WaveChannel
  pub channel_4 : NoiseChannel
  pub control : Control
  pub frame_sequencer_counter : ℕ
  pub buffer_fill_amount : ℕ
  pub frame_sequencer : ℕ
  pub down_sample_counter : ℕ
  pub sound_buffer : List ℕ

abbrev pub initial_frequency : FrequencyData
initial_frequency = record { low = 0xFF; freq_control = 0xBF }

-- `reset`; the handlers that it registers are in `Machine.Units`.
unfoldable pub initial : Apu
initial = record {
  power_on = true;
  channel_1 = record (Pulse.make 0x80 0xBF 0xF3 initial_frequency) { enabled = true };
  channel_2 = Pulse.make 0xFF 0x3F 0x00 initial_frequency;
  channel_3 = Wave.make 0xFF 0x9F initial_frequency;
  channel_4 = Noise.make 0xFF 0x00 0x00 0xBF;
  control = record { nr_50 = 0x77; nr_51 = 0xF3 };
  frame_sequencer_counter = frame_sequence_count;
  buffer_fill_amount = 0;
  frame_sequencer = 0;
  down_sample_counter = down_sample_count;
  sound_buffer = replicate sample_size 0;
}

unfoldable pub length_clicks : Apu → Apu
length_clicks a = record a {
  channel_1 = Pulse.length_click a.channel_1;
  channel_2 = Pulse.length_click a.channel_2;
  channel_3 = Wave.length_click a.channel_3;
  channel_4 = Noise.length_click a.channel_4;
}

unfoldable pub sweep_click : Apu → Apu
sweep_click a = record a { channel_1 = Pulse.sweep_click a.channel_1 }

unfoldable pub envelope_clicks : Apu → Apu
envelope_clicks a = record a {
  channel_1 = Pulse.envelope_click a.channel_1;
  channel_2 = Pulse.envelope_click a.channel_2;
  channel_4 = Noise.envelope_click a.channel_4;
}

-- The switch on the step of the frame sequencer.
unfoldable pub sequenced : ℕ → Apu → Apu
sequenced step a =
    if step == 0
    then length_clicks a
    else if step == 4
    then length_clicks a
    else if step == 2
    then length_clicks (sweep_click a)
    else if step == 6
    then length_clicks (sweep_click a)
    else if step == 7
    then envelope_clicks a
    else a

unfoldable pub step_sequencer : Apu → Apu
step_sequencer a =
    let clicked =
      sequenced a.frame_sequencer (record a { frame_sequencer_counter = frame_sequence_count }) in
    let next = u8 (a.frame_sequencer + 1) in
    if a.frame_sequencer_counter == 0
    then record clicked { frame_sequencer = if next == frame_sequencer_max then 0 else next }
    else a

unfoldable pub tick_channels : Apu → Apu
tick_channels a = record a {
  channel_1 = Pulse.tick a.channel_1;
  channel_2 = Pulse.tick a.channel_2;
  channel_3 = Wave.tick a.channel_3;
  channel_4 = Noise.tick a.channel_4;
}

-- The outputs that are on at a terminal, in the channels' order.
abbrev pub routed_from : ℕ → Terminal → Control → List ℕ → List ℕ
routed_from channel_no t c [] = []
routed_from channel_no t c (output ∷ outputs) =
    let rest = routed_from (channel_no + 1) t c outputs in
    if channel_enabled_on_terminal channel_no t c then output ∷ rest else rest

abbrev pub outputs : Apu → List ℕ
outputs a = a.channel_1.output ∷ a.channel_2.output ∷ a.channel_3.output ∷ a.channel_4.output ∷ []

module _ (mix : List ℕ → ℕ → ℕ) where
  abbrev pub sample_for_terminal : Terminal → Apu → Apu
  sample_for_terminal t a = record a {
    sound_buffer =
        set a.sound_buffer a.buffer_fill_amount
          (mix (routed_from 0 t a.control (outputs a)) (terminal_volume t a.control));
    buffer_fill_amount = u16 (a.buffer_fill_amount + 1);
  }

  unfoldable pub generate_samples : Apu → Apu
  generate_samples a = sample_for_terminal Terminal.right (sample_for_terminal Terminal.left a)

  -- A round of the loop of `tick` up to the decrements at its end, and whether it leaves the loop,
  -- having handed over the buffer.
  unfoldable pub tick_once : Apu → Bool × Apu
  tick_once a =
      let ticked = tick_channels (step_sequencer a) in
      let left = sub8 ticked.down_sample_counter 1 in
      let sampled = generate_samples (record ticked { down_sample_counter = down_sample_count }) in
      if left == 0
      then if sampled.buffer_fill_amount == sample_size
        then (true, record sampled { buffer_fill_amount = 0 })
        else (false, sampled)
      else (false, record ticked { down_sample_counter = left })

  -- With the buffer, if one was handed over.
  unfoldable pub tick : ℕ → Apu → Apu × Option (List ℕ)
  tick zero a = (a, none)
  tick (suc cycles) a =
      let (full, a') = tick_once a in
      let rest =
        tick cycles (record a' { frame_sequencer_counter = sub16 a'.frame_sequencer_counter 1 }) in
      if full then (a', some a'.sound_buffer) else rest
