-- ===== src/Apu/Pulse/Bounds.antt =====
-- The levels of a pulse channel stay within four bits, and its index within the waveforms.
use gameboi.Base.{
  ℕ, ◌+◌, ◌-◌, ◌/◌, ◌≤◌, ◌<◌, ◌≡◌, Bool, true, false, not, ◌&&◌, ltb, if◌then◌else◌, shr, bit_and,
  bit_and_mask, arith, sub16, ◌==◌, ◌||◌,
}
use gameboi.Apu.Registers.{
  Envelope, Sweep, FrequencyData, initial_volume, envelope_period, sweep_period, shift_count,
  frequency_value, sound_length, should_restart, or_eight,
}
use gameboi.Apu.Envelope.{envelope_click}
use gameboi.Apu.Pulse.{
  PulseChannel, reset_timer, adjust_waveform_duty_index, adjust_output_volume, tick, length_click,
  sweep_calculation, take_frequency, sweep_click, restart, disable, on_write, is_spent16,
}
use gameboi.Apu.Pulse

pub record IsBounded (c : PulseChannel) : Type 0 where
  pub volume : c.volume ≤ 15
  pub output : c.output ≤ 15
  pub index : c.waveform_index < 8
  pub duty_index : c.waveform_duty_index < 32
  pub envelope : c.envelope.reg < 256

-- A branch, and a channel that differs in its sweep and its frequency.
either-IsBounded :
    (t : Bool) {c d : PulseChannel} → IsBounded c → IsBounded d → IsBounded (if t then c else d)
either-IsBounded true b1 b2 = b1
either-IsBounded false b1 b2 = b2

swept-IsBounded :
    (sweep : Sweep) (frequency : FrequencyData) {c : PulseChannel}
    → IsBounded c
    → IsBounded (record c { sweep = sweep; frequency_data = frequency })
swept-IsBounded sweep frequency {c} b = record {
  volume = b.volume;
  output = b.output;
  index = b.index;
  duty_index = b.duty_index;
  envelope = b.envelope;
}

pub envelope_click-volume :
    (e : Envelope) (volume : ℕ) → volume ≤ 15 → (envelope_click (e, volume)).1 ≤ 15
unfolding envelope_click
envelope_click-volume e volume h = ground arith

pub envelope_click-reg : (e : Envelope) (volume : ℕ) → (envelope_click (e, volume)).0.reg ≡ e.reg
unfolding envelope_click
envelope_click-reg e volume = ground arith

reset_timer-IsBounded : {c : PulseChannel} → IsBounded c → IsBounded (reset_timer c)
unfolding reset_timer
reset_timer-IsBounded {c} b = ground arith

adjust_waveform_duty_index-IsBounded :
    {c : PulseChannel} → IsBounded c → IsBounded (adjust_waveform_duty_index c)
unfolding adjust_waveform_duty_index
adjust_waveform_duty_index-IsBounded {c} b = ground (arith, bit_and_mask 2 (c.wave_data / 64))

adjust_output_volume-IsBounded :
    {c : PulseChannel} → IsBounded c → IsBounded (adjust_output_volume c)
unfolding adjust_output_volume
adjust_output_volume-IsBounded {c} b = ground arith

pub tick-IsBounded : {c : PulseChannel} → IsBounded c → IsBounded (tick c)
unfolding tick
tick-IsBounded {c} b =
    let stepped = record c {
      timer = sub16 c.timer 1;
      waveform_index = bit_and (c.waveform_index + 1) 0x07;
    } in
    let stepped_bounded : IsBounded stepped =
      ground (arith, bit_and_mask 3 (c.waveform_index + 1)) in
    let after =
      adjust_output_volume-IsBounded
        (adjust_waveform_duty_index-IsBounded (reset_timer-IsBounded stepped_bounded)) in
    let counted : IsBounded (record c { timer = sub16 c.timer 1 }) = ground arith in
    either-IsBounded (is_spent16 (sub16 c.timer 1)) after counted

pub length_click-IsBounded : {c : PulseChannel} → IsBounded c → IsBounded (length_click c)
unfolding length_click
length_click-IsBounded {c} b = ground arith

sweep_calculation-IsBounded : {c : PulseChannel} → IsBounded c → IsBounded (sweep_calculation c).1
unfolding sweep_calculation
sweep_calculation-IsBounded {c} b = ground arith

pub sweep_click-IsBounded : {c : PulseChannel} → IsBounded c → IsBounded (sweep_click c)
unfolding sweep_click
sweep_click-IsBounded {c} b =
    let period = sweep_period c.sweep in
    let reloaded = record c { sweep = record c.sweep { timer = or_eight period } } in
    let first = sweep_calculation reloaded in
    let swept_bounded =
      sweep_calculation-IsBounded {c = reloaded}
        (swept-IsBounded reloaded.sweep c.frequency_data b) in
    let taken =
      sweep_calculation-IsBounded {c = take_frequency (first.0) (first.1)}
        (swept-IsBounded _ _ swept_bounded) in
    either-IsBounded (is_spent16 (sub16 c.sweep.timer 1))
      (either-IsBounded (c.sweep.enabled && ltb 0 period)
        (sweep_calculation-IsBounded (
          either-IsBounded (ltb (first.0) 2048 && ltb 0 (shift_count c.sweep)) taken swept_bounded))
        (swept-IsBounded _ _ b))
      (swept-IsBounded _ _ b)

pub envelope_click-IsBounded : {c : PulseChannel} → IsBounded c → IsBounded (Pulse.envelope_click c)
unfolding Pulse.envelope_click
envelope_click-IsBounded {c} b =
    ground
      (arith, envelope_click-volume c.envelope c.volume, envelope_click-reg c.envelope c.volume)

abbrev started_of : PulseChannel → PulseChannel
started_of c = record (reset_timer c) {
  enabled = true;
  length_counter = 64 - sound_length c.wave_data;
  volume = initial_volume c.envelope;
  envelope = record c.envelope { timer = envelope_period c.envelope };
  sweep = record c.sweep {
    enabled = ltb 0 (sweep_period c.sweep) || ltb 0 (shift_count c.sweep);
    timer = or_eight (sweep_period c.sweep);
    shadow = frequency_value c.frequency_data;
  };
}

restart-IsBounded : {c : PulseChannel} → IsBounded c → IsBounded (restart c)
unfolding restart initial_volume
restart-IsBounded {c} b =
    let timed = reset_timer-IsBounded b in
    let started : IsBounded (started_of c) = ground (arith, timed) in
    adjust_output_volume-IsBounded
      (either-IsBounded (ltb 0 (shift_count c.sweep)) (sweep_calculation-IsBounded started) started)

pub disable-IsBounded : {c : PulseChannel} → IsBounded c → IsBounded (disable c)
unfolding disable
disable-IsBounded b = ground arith

pub on_write-IsBounded :
    (index val : ℕ) {c : PulseChannel} → val < 256 → IsBounded c → IsBounded (on_write index val c)
unfolding on_write
on_write-IsBounded index val {c} h b =
    let indexed =
      adjust_waveform_duty_index-IsBounded {c = record c { wave_data = val }} (ground arith) in
    let enveloped : IsBounded (record c {
      dac_enabled = not (bit_and val 0xF8 == 0x00);
      envelope = record { reg = val; timer = bit_and val 0x07 };
      volume = shr val 4;
    }) =
      ground arith in
    let controlled = swept-IsBounded c.sweep (record c.frequency_data { freq_control = val }) b in
    either-IsBounded (index == 0) (swept-IsBounded _ _ b) (
      either-IsBounded (index == 1) (adjust_output_volume-IsBounded indexed) (
        either-IsBounded (index == 2) (adjust_output_volume-IsBounded enveloped) (
          either-IsBounded (index == 3) (swept-IsBounded _ _ b) (
            either-IsBounded (index == 4)
              (either-IsBounded (should_restart val) (restart-IsBounded controlled) controlled)
              b))))
