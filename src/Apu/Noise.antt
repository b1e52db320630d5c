-- ===== src/Apu/Noise.antt =====
-- gameboy/include/gameboy/apu/noise_channel.h and gameboy/src/apu/noise_channel.cpp.
use gameboi.Base.{
  ℕ, ◌-◌, Bool, true, false, not, ◌&&◌, ◌==◌, ltb, List, [], ◌∷◌, get_or, if◌then◌else◌, bit_and,
  bit_or, bit_xor, shl, shr, u32, sub8, sub32,
}
use gameboi.Util.Bit
use gameboi.Apu.Registers.{
  Envelope, envelope_period, initial_volume, should_restart, use_counter, shift_clock_frequency,
  has_7_bit_counter_width, dividing_ratio, or_eight,
}
use gameboi.Apu.Envelope

pub record NoiseChannel : Type 0 where
  pub sound_length : ℕ
  pub envelope : Envelope
  pub polynomial_counter : ℕ
  pub control : ℕ
  pub timer : ℕ
  pub lfsr : ℕ
  pub output : ℕ
  pub length_counter : ℕ
  pub volume : ℕ
  pub enabled : Bool
  pub dac_enabled : Bool

abbrev pub make : ℕ → ℕ → ℕ → ℕ → NoiseChannel
make sound_length envelope polynomial_counter control = record {
  sound_length = sound_length;
  envelope = record { reg = envelope; timer = 0 };
  polynomial_counter = polynomial_counter;
  control = control;
  timer = 0;
  lfsr = 0;
  output = 0;
  length_counter = 0;
  volume = 0;
  enabled = false;
  dac_enabled = false;
}

abbrev pub divisor_table : List ℕ
divisor_table = 8 ∷ 16 ∷ 32 ∷ 48 ∷ 64 ∷ 80 ∷ 96 ∷ 112 ∷ []

unfoldable pub period : NoiseChannel → ℕ
period c = u32 (
    shl (get_or divisor_table (dividing_ratio c.polynomial_counter) 0)
      (shift_clock_frequency c.polynomial_counter))

unfoldable pub shift_register_click : NoiseChannel → NoiseChannel
shift_register_click c =
    let result = bit_xor (Bit.extract c.lfsr 0) (Bit.extract c.lfsr 1) in
    let shifted = bit_or (shr c.lfsr 1) (shl result 14) in
    record c {
      lfsr =
          if has_7_bit_counter_width c.polynomial_counter
          then bit_or (bit_and shifted 0xBF) (shl result 6)
          else shifted;
    }

unfoldable pub tick : NoiseChannel → NoiseChannel
tick c =
    let left = sub32 c.timer 1 in
    let clicked = shift_register_click (record c { timer = period c }) in
    if left == 0
    then record clicked {
      output =
          if c.enabled && (c.dac_enabled && not (Bit.test clicked.lfsr 0)) then c.volume else 0;
    }
    else record c { timer = left }

unfoldable pub length_click : NoiseChannel → NoiseChannel
length_click c =
    let left = c.length_counter - 1 in
    if ltb 0 c.length_counter && use_counter c.control
    then if left == 0
      then record c { length_counter = left; enabled = false }
      else record c { length_counter = left }
    else c

unfoldable pub envelope_click : NoiseChannel → NoiseChannel
envelope_click c =
    let (envelope, volume) = Envelope.envelope_click (c.envelope, c.volume) in
    record c { envelope = envelope; volume = volume }

unfoldable pub restart : NoiseChannel → NoiseChannel
restart c = record c {
  enabled = true;
  length_counter = sub8 64 c.sound_length;
  timer = period c;
  envelope = record c.envelope { timer = or_eight (envelope_period c.envelope) };
  volume = initial_volume c.envelope;
  lfsr = 0x7FFF;
}

unfoldable pub disable : NoiseChannel → NoiseChannel
disable c = record c { length_counter = 0; enabled = false }

-- The register indices of the enumeration, 1 to 4.
unfoldable pub on_write : ℕ → ℕ → NoiseChannel → NoiseChannel
on_write index val c =
    let controlled = record c { control = val } in
    if index == 1
    then record c { sound_length = bit_and val 0x3F }
    else if index == 2
    then record c {
      dac_enabled = not (bit_and val 0xF8 == 0x00);
      envelope = record c.envelope { reg = val };
    }
    else if index == 3
    then record c { polynomial_counter = val }
    else if index == 4
    then if should_restart val then restart controlled else controlled
    else c
