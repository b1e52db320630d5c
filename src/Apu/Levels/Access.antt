-- ===== src/Apu/Levels/Access.antt =====
-- Writes to the registers keep the unit in range.
use gameboi.Base.{
  ℕ, ◌-◌, ◌%◌, ◌<◌, Bool, true, false, not, ◌&&◌, ◌==◌, List, [], ◌∷◌, if◌then◌else◌, arith,
}
use gameboi.Range
use gameboi.Util.Bit
use gameboi.Apu.Addresses.{cleared_addresses, nr_50_addr, nr_51_addr, nr_52_addr}
use gameboi.Apu.Registers.{Control}
use gameboi.Apu.Pulse.Bounds.{IsBounded, disable-IsBounded, on_write-IsBounded}
use gameboi.Apu.Pulse.{PulseChannel}
use gameboi.Apu.Wave.{WaveChannel}
use gameboi.Apu.Noise.{NoiseChannel}
use gameboi.Apu.Unit.{Apu}
use gameboi.Apu.Access.{
  channel_1_range, channel_2_range, channel_3_range, channel_4_range, write_register, cleared,
  power_off, on_write,
}
use gameboi.Apu.Levels.Channels.{
  IsWave, IsNoise, on_write-IsWave, disable-IsWave, disable-IsNoise, on_write-IsNoise,
}
use gameboi.Apu.Levels.{IsInRange, either-IsInRange, recounted}

-- A write changes the channels, the volumes and the power.
rewired :
    {a : Apu} (power : Bool) (control : Control) {one two : PulseChannel} {three : WaveChannel}
    {four : NoiseChannel}
    → IsBounded one
    → IsBounded two
    → IsWave three
    → IsNoise four
    → IsInRange a
    → IsInRange (record a {
      power_on = power;
      channel_1 = one;
      channel_2 = two;
      channel_3 = three;
      channel_4 = four;
      control = control;
    })
rewired power control h1 h2 h3 h4 r = record {
  pulse_1 = h1;
  pulse_2 = h2;
  wave = h3;
  noise = h4;
  sequencer = r.sequencer;
  sequence_counter = r.sequence_counter;
  sample_counter = r.sample_counter;
  fill = r.fill;
  buffer = r.buffer;
}

write_register-IsInRange :
    (address val : ℕ) {a : Apu} → val < 256 → IsInRange a → IsInRange (write_register address val a)
unfolding write_register
write_register-IsInRange address val {a} h r =
    let idx = (address - 1) % 5 in
    let c = a.control in
    either-IsInRange (Range.has channel_1_range address)
      (rewired a.power_on c (on_write-IsBounded idx val h r.pulse_1) r.pulse_2 r.wave r.noise r)
      (either-IsInRange (Range.has channel_2_range address)
        (rewired a.power_on c r.pulse_1 (on_write-IsBounded idx val h r.pulse_2) r.wave r.noise r)
        (either-IsInRange (Range.has channel_3_range address)
          (rewired a.power_on c r.pulse_1 r.pulse_2 (on_write-IsWave idx val r.wave) r.noise r)
          (either-IsInRange (Range.has channel_4_range address)
            (rewired a.power_on c r.pulse_1 r.pulse_2 r.wave (on_write-IsNoise idx val h r.noise) r)
            (either-IsInRange (address == nr_50_addr)
              (rewired a.power_on (record c { nr_50 = val }) r.pulse_1 r.pulse_2 r.wave r.noise r)
              (either-IsInRange (address == nr_51_addr)
                (rewired a.power_on (record c { nr_51 = val }) r.pulse_1 r.pulse_2 r.wave r.noise r)
                r)))))

cleared-IsInRange : (addresses : List ℕ) {a : Apu} → IsInRange a → IsInRange (cleared addresses a)
cleared-IsInRange [] r = r
cleared-IsInRange (address ∷ rest) r =
    cleared-IsInRange rest (write_register-IsInRange address 0 (omega arith) r)

power_off-IsInRange : {a : Apu} → IsInRange a → IsInRange (power_off a)
unfolding power_off
power_off-IsInRange {a} r =
    let c = either-IsInRange a.power_on (cleared-IsInRange cleared_addresses r) r in
    let control = (if a.power_on then cleared cleared_addresses a else a).control in
    rewired false control (disable-IsBounded c.pulse_1) (disable-IsBounded c.pulse_2)
      (disable-IsWave c.wave) (disable-IsNoise c.noise) c

-- So does every write of a byte to one of its registers, whatever the power.
pub on_write-IsInRange :
    (address val : ℕ) (a : Apu) → val < 256 → IsInRange a → IsInRange (on_write address val a)
unfolding on_write
on_write-IsInRange address val a h r =
    let on =
      recounted 0 8192 _ _ (omega arith) (omega arith) r.sample_counter r.fill
        (rewired true a.control r.pulse_1 r.pulse_2 r.wave r.noise r) in
    either-IsInRange (not a.power_on && not (address == nr_52_addr)) r (
      either-IsInRange (address == nr_52_addr)
        (either-IsInRange (not (Bit.test val 7)) (power_off-IsInRange r)
          (either-IsInRange (not a.power_on) on r))
        (write_register-IsInRange address val h r))
