-- ===== src/Apu/Registers.antt =====
-- gameboy/include/gameboy/apu/data: what the bytes of the sound registers say. Each struct is its
-- byte, but for the two that also count.
use gameboi.Base.{ℕ, ◌+◌, Bool, ◌==◌, if◌then◌else◌, bit_and, shr}
use gameboi.Util.Bit
use gameboi.Util.Carry.{word}

-- `audio::envelope`; the timer is an `int32_t`, here its two's complement pattern.
pub record Envelope : Type 0 where
  pub reg : ℕ
  pub timer : ℕ

-- `audio::sweep`; the timer is an `int16_t`.
pub record Sweep : Type 0 where
  pub reg : ℕ
  pub enabled : Bool
  pub timer : ℕ
  pub shadow : ℕ

-- `audio::frequency_data`, with the byte of its `freq_control`.
pub record FrequencyData : Type 0 where
  pub low : ℕ
  pub freq_control : ℕ

-- `audio::control`
pub record Control : Type 0 where
  pub nr_50 : ℕ
  pub nr_51 : ℕ

pub data Terminal : Type 0 where
  right : Terminal
  left : Terminal

unfoldable pub envelope_period : Envelope → ℕ
envelope_period e = bit_and e.reg 0x07

unfoldable pub is_increase : Envelope → Bool
is_increase e = Bit.test e.reg 3

unfoldable pub initial_volume : Envelope → ℕ
initial_volume e = shr e.reg 4

unfoldable pub sweep_period : Sweep → ℕ
sweep_period s = bit_and (shr s.reg 4) 0x7

unfoldable pub is_decrease : Sweep → Bool
is_decrease s = Bit.test s.reg 3

unfoldable pub shift_count : Sweep → ℕ
shift_count s = bit_and s.reg 0x7

-- Of a `frequency_control`.
abbrev pub should_restart : ℕ → Bool
should_restart control = Bit.test control 7

abbrev pub use_counter : ℕ → Bool
use_counter control = Bit.test control 6

unfoldable pub frequency_value : FrequencyData → ℕ
frequency_value f = word (bit_and f.freq_control 0x07) f.low

-- Of a `polynomial_counter`.
abbrev pub shift_clock_frequency : ℕ → ℕ
shift_clock_frequency reg = shr reg 4

abbrev pub has_7_bit_counter_width : ℕ → Bool
has_7_bit_counter_width reg = Bit.test reg 3

abbrev pub dividing_ratio : ℕ → ℕ
dividing_ratio reg = bit_and reg 0x7

-- Of a `wave_data`.
abbrev pub duty : ℕ → ℕ
duty reg = bit_and (shr reg 6) 0x03

abbrev pub sound_length : ℕ → ℕ
sound_length reg = bit_and reg 0x3F

abbrev pub terminal_bit_offset : Terminal → ℕ
terminal_bit_offset Terminal.right = 0
terminal_bit_offset Terminal.left = 4

abbrev pub terminal_volume : Terminal → Control → ℕ
terminal_volume t c = bit_and (shr c.nr_50 (terminal_bit_offset t)) 0x7

abbrev pub channel_enabled_on_terminal : ℕ → Terminal → Control → Bool
channel_enabled_on_terminal channel_no t c = Bit.test c.nr_51 (terminal_bit_offset t + channel_no)

-- A timer that starts at the period, or at 8.
abbrev pub or_eight : ℕ → ℕ
or_eight period = if period == 0 then 8 else period
