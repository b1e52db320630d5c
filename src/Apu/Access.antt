-- ===== src/Apu/Access.antt =====
-- gameboy/src/apu/apu.cpp: the handlers of the registers, and the power switch in NR52.
use gameboi.Base.{
  ℕ, ◌-◌, ◌%◌, true, false, not, ◌&&◌, ◌==◌, List, [], ◌∷◌, get_or, set, if◌then◌else◌, bit_or, shl,
}
use gameboi.Range
use gameboi.Util.Bit
use gameboi.Apu.Addresses.{
  nr_10_addr, nr_11_addr, nr_12_addr, nr_14_addr, nr_21_addr, nr_22_addr, nr_24_addr, nr_30_addr,
  nr_32_addr, nr_34_addr, nr_41_addr, nr_42_addr, nr_43_addr, nr_44_addr, nr_50_addr, nr_51_addr,
  nr_52_addr, cleared_addresses,
}
use gameboi.Apu.Pulse
use gameboi.Apu.Wave
use gameboi.Apu.Noise
use gameboi.Apu.Unit.{Apu, frame_sequence_count}

abbrev pub channel_1_range : Range.Range
channel_1_range = Range.make nr_10_addr nr_14_addr

abbrev pub channel_2_range : Range.Range
channel_2_range = Range.make nr_21_addr nr_24_addr

abbrev pub channel_3_range : Range.Range
channel_3_range = Range.make nr_30_addr nr_34_addr

abbrev pub channel_4_range : Range.Range
channel_4_range = Range.make nr_41_addr nr_44_addr

-- A write to any register but NR52, with the power on.
unfoldable pub write_register : ℕ → ℕ → Apu → Apu
write_register address val a =
    let idx = (address - 1) % 5 in
    if Range.has channel_1_range address
    then record a { channel_1 = Pulse.on_write idx val a.channel_1 }
    else if Range.has channel_2_range address
    then record a { channel_2 = Pulse.on_write idx val a.channel_2 }
    else if Range.has channel_3_range address
    then record a { channel_3 = Wave.on_write idx val a.channel_3 }
    else if Range.has channel_4_range address
    then record a { channel_4 = Noise.on_write idx val a.channel_4 }
    else if address == nr_50_addr
    then record a { control = record a.control { nr_50 = val } }
    else if address == nr_51_addr
    then record a { control = record a.control { nr_51 = val } }
    else a

abbrev pub cleared : List ℕ → Apu → Apu
cleared [] a = a
cleared (address ∷ addresses) a = cleared addresses (write_register address 0x00 a)

-- The registers are written while the power is still on.
unfoldable pub power_off : Apu → Apu
power_off a =
    let c = if a.power_on then cleared cleared_addresses a else a in
    record c {
      channel_1 = Pulse.disable c.channel_1;
      channel_2 = Pulse.disable c.channel_2;
      channel_3 = Wave.disable c.channel_3;
      channel_4 = Noise.disable c.channel_4;
      power_on = false;
    }

unfoldable pub on_write : ℕ → ℕ → Apu → Apu
on_write address val a =
    if not a.power_on && not (address == nr_52_addr)
    then a
    else if address == nr_52_addr
    then if not (Bit.test val 7)
      then power_off a
      else if not a.power_on
      then record a {
        frame_sequencer = 0;
        frame_sequencer_counter = frame_sequence_count;
        power_on = true;
      }
      else a
    else write_register address val a

unfoldable pub on_read : ℕ → Apu → ℕ
on_read address a =
    if address == nr_10_addr
    then bit_or a.channel_1.sweep.reg 0x80
    else if address == nr_11_addr
    then bit_or a.channel_1.wave_data 0x3F
    else if address == nr_12_addr
    then a.channel_1.envelope.reg
    else if address == nr_14_addr
    then bit_or a.channel_1.frequency_data.freq_control 0xBF
    else if address == nr_21_addr
    then bit_or a.channel_2.wave_data 0x3F
    else if address == nr_22_addr
    then a.channel_2.envelope.reg
    else if address == nr_24_addr
    then bit_or a.channel_2.frequency_data.freq_control 0xBF
    else if address == nr_30_addr
    then bit_or (shl (Bit.from_bool a.channel_3.dac_enabled) 7) 0x7F
    else if address == nr_32_addr
    then bit_or a.channel_3.output_level 0x9F
    else if address == nr_34_addr
    then bit_or a.channel_3.frequency.freq_control 0xBF
    else if address == nr_42_addr
    then a.channel_4.envelope.reg
    else if address == nr_43_addr
    then a.channel_4.polynomial_counter
    else if address == nr_44_addr
    then bit_or a.channel_4.control 0xBF
    else if address == nr_50_addr
    then a.control.nr_50
    else if address == nr_51_addr
    then a.control.nr_51
    else if address == nr_52_addr
    then bit_or
        (bit_or
          (bit_or
            (bit_or (bit_or 0x70 (shl (Bit.from_bool a.power_on) 7))
              (shl (Bit.from_bool a.channel_4.enabled) 3))
            (shl (Bit.from_bool a.channel_3.enabled) 2))
          (shl (Bit.from_bool a.channel_2.enabled) 1))
        (Bit.from_bool a.channel_1.enabled)
    else 0xFF

unfoldable pub on_wave_pattern_write : ℕ → ℕ → Apu → Apu
on_wave_pattern_write address val a = record a {
  channel_3 = record a.channel_3 {
    wave_pattern = set a.channel_3.wave_pattern (address - Range.wave_pattern_range.low) val;
  };
}

unfoldable pub on_wave_pattern_read : ℕ → Apu → ℕ
on_wave_pattern_read address a =
    get_or a.channel_3.wave_pattern (address - Range.wave_pattern_range.low) 0
