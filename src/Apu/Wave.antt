-- ===== src/Apu/Wave.antt =====
-- gameboy/include/gameboy/apu/wave_channel.h and gameboy/src/apu/wave_channel.cpp. The two counters
-- are `int16_t`s, here their two's complement patterns.
use gameboi.Base.{
  ℕ, ◌+◌, ◌-◌, ◌*◌, ◌/◌, Bool, true, false, not, ◌&&◌, ◌==◌, ltb, List, [], ◌∷◌, get_or, replicate,
  if◌then◌else◌, bit_and, shr, sub16,
}
use gameboi.Util.Bit
use gameboi.Apu.Registers.{FrequencyData, should_restart, use_counter, frequency_value}
use gameboi.Apu.Pulse.{is_spent16}

pub record WaveChannel : Type 0 where
  pub sound_length : ℕ
  pub output_level : ℕ
  pub frequency : FrequencyData
  pub length_counter : ℕ
  pub timer : ℕ
  pub sample_index : ℕ
  pub output : ℕ
  pub enabled : Bool
  pub dac_enabled : Bool
  pub wave_pattern : List ℕ

abbrev pub make : ℕ → ℕ → FrequencyData → WaveChannel
make sound_length output_level frequency = record {
  sound_length = sound_length;
  output_level = output_level;
  frequency = frequency;
  length_counter = 0;
  timer = 0;
  sample_index = 0;
  output = 0;
  enabled = false;
  dac_enabled = false;
  wave_pattern = replicate 16 0;
}

abbrev pub shift_table : List ℕ
shift_table = 4 ∷ 0 ∷ 1 ∷ 2 ∷ []

unfoldable pub reset_timer : WaveChannel → WaveChannel
reset_timer c = record c { timer = (2048 - frequency_value c.frequency) * 2 }

-- The sample's four bits at the level that the register sets.
unfoldable pub sample : WaveChannel → ℕ
sample c =
    let byte = get_or c.wave_pattern (c.sample_index / 2) 0 in
    let nibble = if not (Bit.test c.sample_index 0) then shr byte 4 else byte in
    shr (bit_and nibble 0x0F) (get_or shift_table (bit_and (shr c.output_level 5) 0x3) 0)

unfoldable pub tick : WaveChannel → WaveChannel
tick c =
    let counted = record c { timer = sub16 c.timer 1 } in
    let stepped = record (reset_timer counted) {
      sample_index = bit_and (c.sample_index + 1) 0x1F;
    } in
    if is_spent16 counted.timer
    then record stepped { output = if c.enabled && c.dac_enabled then sample stepped else 0 }
    else counted

unfoldable pub length_click : WaveChannel → WaveChannel
length_click c =
    let left = sub16 c.length_counter 1 in
    if ltb 0 c.length_counter && use_counter c.frequency.freq_control
    then if left == 0
      then record c { length_counter = left; enabled = false }
      else record c { length_counter = left }
    else c

unfoldable pub restart : WaveChannel → WaveChannel
restart c =
    reset_timer (record c { enabled = true; sample_index = 0; length_counter = c.sound_length })

unfoldable pub disable : WaveChannel → WaveChannel
disable c = record c { length_counter = 0; enabled = false }

unfoldable pub on_write : ℕ → ℕ → WaveChannel → WaveChannel
on_write index val c =
    let controlled = record c { frequency = record c.frequency { freq_control = val } } in
    if index == 0
    then record c { dac_enabled = Bit.test val 7 }
    else if index == 1
    then record c { sound_length = val }
    else if index == 2
    then record c { output_level = val }
    else if index == 3
    then record c { frequency = record c.frequency { low = val } }
    else if index == 4
    then if should_restart val then restart controlled else controlled
    else c
