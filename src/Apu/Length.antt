-- ===== src/Apu/Length.antt =====
-- How long a channel that counts its length stays on after it is started.
use gameboi.Base.{ℕ, zero, suc, ◌-◌, ◌%◌, ◌<◌, ◌≡◌, true, ltb, bit_and_mask, arith, ◌∙◌}
use gameboi.Apu.Registers.{use_counter, shift_count, sound_length}
use gameboi.Apu.Pulse.{PulseChannel}
use gameboi.Apu.Pulse
use gameboi.Apu.Wave.{WaveChannel}
use gameboi.Apu.Wave

-- Clicks of the sequencer, one after the other.
unfoldable pub wave_clicks : ℕ → WaveChannel → WaveChannel
wave_clicks zero c = c
wave_clicks (suc n) c = wave_clicks n (Wave.length_click c)

unfoldable pub pulse_clicks : ℕ → PulseChannel → PulseChannel
pulse_clicks zero c = c
pulse_clicks (suc n) c = pulse_clicks n (Pulse.length_click c)

-- The channel counts, is on exactly while the counter is above 0, and the counter is a byte's.
record IsCounting (c : WaveChannel) : Type 0 where
  counted : use_counter c.frequency.freq_control ≡ true
  on : c.enabled ≡ ltb 0 c.length_counter
  small : c.length_counter < 256

record Clicked (c after : WaveChannel) : Type 0 where
  counting : IsCounting after
  left : after.length_counter ≡ c.length_counter - 1

record IsCountingPulse (c : PulseChannel) : Type 0 where
  counted : use_counter c.frequency_data.freq_control ≡ true
  on : c.enabled ≡ ltb 0 c.length_counter

record ClickedPulse (c after : PulseChannel) : Type 0 where
  counting : IsCountingPulse after
  left : after.length_counter ≡ c.length_counter - 1

pulse_click : {c : PulseChannel} → IsCountingPulse c → ClickedPulse c (Pulse.length_click c)
unfolding Pulse.length_click
pulse_click {c} h = ground arith

pulse_clicks-enabled :
    (n : ℕ) (c : PulseChannel)
    → IsCountingPulse c
    → (pulse_clicks n c).enabled ≡ ltb n c.length_counter
unfolding pulse_clicks
pulse_clicks-enabled zero c h = h.on
pulse_clicks-enabled (suc n) c h =
    let next = pulse_click h in
    pulse_clicks-enabled n (Pulse.length_click c) next.counting ∙ ground (arith, next.left)

restarted :
    (c : PulseChannel)
    → shift_count c.sweep ≡ 0
    → ((Pulse.restart c).enabled ≡ true)
      × ((Pulse.restart c).length_counter ≡ 64 - sound_length c.wave_data)
      × (use_counter (Pulse.restart c).frequency_data.freq_control
          ≡ use_counter c.frequency_data.freq_control)
unfolding Pulse.restart Pulse.reset_timer Pulse.adjust_output_volume
restarted c still = ground arith

-- A pulse channel that counts its length, without a sweep, is on, after it is started, for 64 clicks
-- less the low six bits of its length register, and off from then on.
pub pulse_clicks-restart :
    (n : ℕ) (c : PulseChannel)
    → use_counter c.frequency_data.freq_control ≡ true
    → shift_count c.sweep ≡ 0
    → (pulse_clicks n (Pulse.restart c)).enabled ≡ ltb n (64 - c.wave_data % 64)
pulse_clicks-restart n c counted still =
    let facts = restarted c still in
    pulse_clicks-enabled n (Pulse.restart c) (record {
      counted = facts.2 ∙ counted;
      on = ground (arith, facts, bit_and_mask 6 c.wave_data);
    })
    ∙ ground (arith, facts, bit_and_mask 6 c.wave_data)
