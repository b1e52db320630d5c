-- ===== src/Apu/Levels/Channels.antt =====
-- The levels of the wave channel and of the noise channel stay within four bits.
use gameboi.Base.{
  ℕ, ◌+◌, ◌-◌, ◌*◌, ◌/◌, ◌^◌, ◌≤◌, ◌<◌, not, get_or, if◌then◌else◌, shr, bit_and, bit_and_mask,
  arith,
}
use native.Mathlib.Nat.{div-le_self}
use gameboi.Util.Bit
use gameboi.Apu.Registers.{initial_volume, frequency_value}
use gameboi.Apu.Pulse.Bounds.{envelope_click-volume, envelope_click-reg}
use gameboi.Apu.Wave.{WaveChannel}
use gameboi.Apu.Wave
use gameboi.Apu.Noise.{NoiseChannel}
use gameboi.Apu.Noise

pub record IsWave (c : WaveChannel) : Type 0 where
  pub output : c.output ≤ 15

pub record IsNoise (c : NoiseChannel) : Type 0 where
  pub volume : c.volume ≤ 15
  pub output : c.output ≤ 15
  pub envelope : c.envelope.reg < 256

sample-le : (c : WaveChannel) → Wave.sample c ≤ 15
unfolding Wave.sample
sample-le c =
    let byte = get_or c.wave_pattern (c.sample_index / 2) 0 in
    let nibble = if not (Bit.test c.sample_index 0) then shr byte 4 else byte in
    let level = get_or Wave.shift_table (bit_and (shr c.output_level 5) 0x3) 0 in
    omega (arith, div-le_self (bit_and nibble 0x0F) (2 ^ level), bit_and_mask 4 nibble)

pub tick-IsWave : {c : WaveChannel} → IsWave c → IsWave (Wave.tick c)
unfolding Wave.tick Wave.reset_timer
tick-IsWave {c} b = ground (
  arith,
  sample-le (record c {
    timer = (2048 - frequency_value c.frequency) * 2;
    sample_index = bit_and (c.sample_index + 1) 0x1F;
  }),
)

pub length_click-IsWave : {c : WaveChannel} → IsWave c → IsWave (Wave.length_click c)
unfolding Wave.length_click
length_click-IsWave b = ground arith

pub on_write-IsWave :
    (index val : ℕ) {c : WaveChannel} → IsWave c → IsWave (Wave.on_write index val c)
unfolding Wave.on_write Wave.restart Wave.reset_timer
on_write-IsWave index val b = ground arith

pub disable-IsWave : {c : WaveChannel} → IsWave c → IsWave (Wave.disable c)
unfolding Wave.disable
disable-IsWave b = ground arith

pub tick-IsNoise : {c : NoiseChannel} → IsNoise c → IsNoise (Noise.tick c)
unfolding Noise.tick Noise.shift_register_click
tick-IsNoise b = ground arith

pub length_click-IsNoise : {c : NoiseChannel} → IsNoise c → IsNoise (Noise.length_click c)
unfolding Noise.length_click
length_click-IsNoise b = ground arith

pub envelope_click-IsNoise : {c : NoiseChannel} → IsNoise c → IsNoise (Noise.envelope_click c)
unfolding Noise.envelope_click
envelope_click-IsNoise {c} b =
    ground
      (arith, envelope_click-volume c.envelope c.volume, envelope_click-reg c.envelope c.volume)

pub disable-IsNoise : {c : NoiseChannel} → IsNoise c → IsNoise (Noise.disable c)
unfolding Noise.disable
disable-IsNoise b = ground arith

pub on_write-IsNoise :
    (index val : ℕ) {c : NoiseChannel}
    → val < 256
    → IsNoise c
    → IsNoise (Noise.on_write index val c)
unfolding Noise.on_write Noise.restart initial_volume
on_write-IsNoise index val h b = ground arith
