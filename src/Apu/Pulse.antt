-- ===== src/Apu/Pulse.antt =====
-- gameboy/include/gameboy/apu/pulse_channel.h and gameboy/src/apu/pulse_channel.cpp. The timers are
-- `int16_t`s, here their two's complement patterns.
pub mod Bounds
use gameboi.Base.{
  ℕ, ◌+◌, ◌-◌, ◌*◌, Bool, true, false, not, ◌&&◌, ◌||◌, ◌==◌, ltb, List, [], ◌∷◌, get_or,
  if◌then◌else◌, bit_and, bit_or, shr, u8, u16, sub16, is_negative16,
}
use gameboi.Apu.Registers.{
  Envelope, Sweep, FrequencyData, envelope_period, initial_volume, sweep_period, is_decrease,
  shift_count, should_restart, use_counter, frequency_value, duty, sound_length, or_eight,
}
use gameboi.Apu.Envelope

abbrev pub waveform : List Bool
waveform =
    false ∷ false ∷ false ∷ false ∷ false ∷ false ∷ false ∷ true ∷ true ∷ false ∷ false ∷ false
    ∷ false ∷ false ∷ false ∷ true ∷ true ∷ false ∷ false ∷ false ∷ false ∷ true ∷ true ∷ true
    ∷ false ∷ true ∷ true ∷ true ∷ true ∷ true ∷ true ∷ false ∷ []

pub record PulseChannel : Type 0 where
  pub sweep : Sweep
  pub wave_data : ℕ
  pub envelope : Envelope
  pub frequency_data : FrequencyData
  pub waveform_duty_index : ℕ
  pub timer : ℕ
  pub length_counter : ℕ
  pub volume : ℕ
  pub output : ℕ
  pub waveform_index : ℕ
  pub enabled : Bool
  pub dac_enabled : Bool

-- The aggregate's other fields have their defaults.
abbrev pub make : ℕ → ℕ → ℕ → FrequencyData → PulseChannel
make sweep wave_data envelope frequency = record {
  sweep = record { reg = sweep; enabled = false; timer = 0; shadow = 0 };
  wave_data = wave_data;
  envelope = record { reg = envelope; timer = 0 };
  frequency_data = frequency;
  waveform_duty_index = 0;
  timer = 0;
  length_counter = 0;
  volume = 0;
  output = 0;
  waveform_index = 0;
  enabled = false;
  dac_enabled = false;
}

-- `x <= 0` of an `int16_t`
abbrev pub is_spent16 : ℕ → Bool
is_spent16 x = is_negative16 x || x == 0

unfoldable pub reset_timer : PulseChannel → PulseChannel
reset_timer c = record c { timer = (2048 - frequency_value c.frequency_data) * 4 }

unfoldable pub adjust_waveform_duty_index : PulseChannel → PulseChannel
adjust_waveform_duty_index c = record c {
  waveform_duty_index = duty c.wave_data * 8 + c.waveform_index;
}

unfoldable pub adjust_output_volume : PulseChannel → PulseChannel
adjust_output_volume c = record c {
  output =
      if not (get_or waveform c.waveform_duty_index false)
      then 0
      else if c.enabled && c.dac_enabled
      then c.volume
      else 0;
}

unfoldable pub tick : PulseChannel → PulseChannel
tick c =
    let counted = record c { timer = sub16 c.timer 1 } in
    let stepped = record counted { waveform_index = bit_and (c.waveform_index + 1) 0x07 } in
    if is_spent16 counted.timer
    then adjust_output_volume (adjust_waveform_duty_index (reset_timer stepped))
    else counted

unfoldable pub length_click : PulseChannel → PulseChannel
length_click c =
    let left = c.length_counter - 1 in
    if ltb 0 c.length_counter && use_counter c.frequency_data.freq_control
    then if left == 0
      then record c { length_counter = left; enabled = false; output = 0 }
      else record c { length_counter = left }
    else c

-- The frequency that the sweep leads to; past 2047 it turns the channel off.
abbrev pub swept : Sweep → ℕ
swept s =
    let step = shr s.shadow (shift_count s) in
    if is_decrease s then s.shadow - step else s.shadow + step

unfoldable pub sweep_calculation : PulseChannel → ℕ × PulseChannel
sweep_calculation c =
    let new_freq = swept c.sweep in
    (u16 new_freq, if ltb 2047 new_freq then record c { enabled = false; output = 0 } else c)

-- The new frequency in the sweep's copy and in the registers.
abbrev pub take_frequency : ℕ → PulseChannel → PulseChannel
take_frequency new_freq c = record c {
  sweep = record c.sweep { shadow = new_freq };
  frequency_data = record {
    low = bit_and new_freq 0x00FF;
    freq_control = u8 (bit_or (bit_and c.frequency_data.freq_control 0xF8) (shr new_freq 8));
  };
}

unfoldable pub sweep_click : PulseChannel → PulseChannel
sweep_click c =
    let left = sub16 c.sweep.timer 1 in
    let period = sweep_period c.sweep in
    let reloaded = record c { sweep = record c.sweep { timer = or_eight period } } in
    let (new_freq, calculated) = sweep_calculation reloaded in
    let taken =
      if ltb new_freq 2048 && ltb 0 (shift_count c.sweep)
      then (sweep_calculation (take_frequency new_freq calculated)).1
      else calculated in
    if is_spent16 left
    then if c.sweep.enabled && ltb 0 period then (sweep_calculation taken).1 else reloaded
    else record c { sweep = record c.sweep { timer = left } }

unfoldable pub envelope_click : PulseChannel → PulseChannel
envelope_click c =
    let (envelope, volume) = Envelope.envelope_click (c.envelope, c.volume) in
    record c { envelope = envelope; volume = volume }

unfoldable pub restart : PulseChannel → PulseChannel
restart c =
    let timed = reset_timer c in
    let started = record timed {
      enabled = true;
      length_counter = 64 - sound_length c.wave_data;
      volume = initial_volume c.envelope;
      envelope = record c.envelope { timer = envelope_period c.envelope };
      sweep = record c.sweep {
        enabled = ltb 0 (sweep_period c.sweep) || ltb 0 (shift_count c.sweep);
        timer = or_eight (sweep_period c.sweep);
        shadow = frequency_value c.frequency_data;
      };
    } in
    adjust_output_volume
      (if ltb 0 (shift_count c.sweep) then (sweep_calculation started).1 else started)

unfoldable pub disable : PulseChannel → PulseChannel
disable c = record c { length_counter = 0; enabled = false; output = 0 }

-- The register indices of the enumeration, 0 to 4.
unfoldable pub on_write : ℕ → ℕ → PulseChannel → PulseChannel
on_write index val c =
    let enveloped = record c {
      dac_enabled = not (bit_and val 0xF8 == 0x00);
      envelope = record { reg = val; timer = bit_and val 0x07 };
      volume = shr val 4;
    } in
    let controlled = record c { frequency_data = record c.frequency_data { freq_control = val } } in
    if index == 0
    then record c { sweep = record c.sweep { reg = val } }
    else if index == 1
    then adjust_output_volume (adjust_waveform_duty_index (record c { wave_data = val }))
    else if index == 2
    then adjust_output_volume enveloped
    else if index == 3
    then record c { frequency_data = record c.frequency_data { low = val } }
    else if index == 4
    then if should_restart val then restart controlled else controlled
    else c
