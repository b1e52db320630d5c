-- ===== src/Apu/Levels/Ticks.antt =====
-- The ranges over a tick of the unit.
use gameboi.Base.{
  ℕ, zero, suc, ◌+◌, ◌%◌, ◌≤◌, ◌<◌, ◌≡◌, Bool, true, false, ◌==◌, List, length-set, Option,
  if◌then◌else◌, sub8, sub16, arith, refl, ◌∙◌,
}
use gameboi.Apu.Registers.{Terminal}
use gameboi.Apu.Pulse.Bounds.{tick-IsBounded}
use gameboi.Apu.Unit.{
  Apu, length_clicks, sweep_click, envelope_clicks, sequenced, step_sequencer, tick_channels,
  sample_for_terminal, generate_samples, tick_once, tick,
}
use gameboi.Apu.Levels.Channels.{tick-IsWave, tick-IsNoise}
use gameboi.Apu.Levels.{IsInRange, either-IsInRange, sequenced-IsInRange, recounted}

step_sequencer-IsInRange : {a : Apu} → IsInRange a → IsInRange (step_sequencer a)
unfolding step_sequencer
step_sequencer-IsInRange {a} r =
    let reset =
      recounted a.frame_sequencer 8192 a.down_sample_counter a.buffer_fill_amount r.sequencer
        (omega arith) r.sample_counter r.fill r in
    let clicked = sequenced-IsInRange a.frame_sequencer reset in
    let bound = r.sequencer in
    either-IsInRange (a.frame_sequencer_counter == 0)
      (recounted _ _ _ _ (ground arith) clicked.sequence_counter clicked.sample_counter clicked.fill
        clicked)
      r

tick_channels-IsInRange : {a : Apu} → IsInRange a → IsInRange (tick_channels a)
unfolding tick_channels
tick_channels-IsInRange r = record {
  pulse_1 = tick-IsBounded r.pulse_1;
  pulse_2 = tick-IsBounded r.pulse_2;
  wave = tick-IsWave r.wave;
  noise = tick-IsNoise r.noise;
  sequencer = r.sequencer;
  sequence_counter = r.sequence_counter;
  sample_counter = r.sample_counter;
  fill = r.fill;
  buffer = r.buffer;
}

sequenced-counter :
    (step : ℕ) (a : Apu) → (sequenced step a).frame_sequencer_counter ≡ a.frame_sequencer_counter
unfolding sequenced length_clicks sweep_click envelope_clicks
sequenced-counter step a = ground arith

-- A round of the loop starts with the sequencer's counter above 0, once it is checked.
step_sequencer-pos : {a : Apu} → IsInRange a → 1 ≤ (step_sequencer a).frame_sequencer_counter
unfolding step_sequencer
step_sequencer-pos {a} r =
    ground
      (arith, sequenced-counter a.frame_sequencer (record a { frame_sequencer_counter = 8192 }))

tick_channels-counter :
    (a : Apu) → (tick_channels a).frame_sequencer_counter ≡ a.frame_sequencer_counter
unfolding tick_channels
tick_channels-counter a = refl

-- Both samples of a round fit the buffer; it is full exactly when the second ends it.
record IsSampled (a : Apu) (before : Apu) : Type 0 where
  range :
      (fill : ℕ)
      → (fill < 4096) × (fill % 2 ≡ 0)
      → IsInRange (record a { buffer_fill_amount = fill })
  fill : a.buffer_fill_amount ≡ before.buffer_fill_amount + 2
  counter : a.frame_sequencer_counter ≡ before.frame_sequencer_counter

stopped-IsInRange :
    (full : Bool) (r1 r2 : Apu × Option (List ℕ))
    → IsInRange r1.0
    → IsInRange r2.0
    → IsInRange (if full then r1 else r2).0
stopped-IsInRange true r1 r2 h1 h2 = h1
stopped-IsInRange false r1 r2 h1 h2 = h2

module _ (mix : List ℕ → ℕ → ℕ) where
  generate_samples-IsSampled : {a : Apu} → IsInRange a → IsSampled (generate_samples mix a) a
  unfolding generate_samples
  generate_samples-IsSampled {a} r = record {
    range = λ fill h. record {
      pulse_1 = r.pulse_1;
      pulse_2 = r.pulse_2;
      wave = r.wave;
      noise = r.noise;
      sequencer = r.sequencer;
      sequence_counter = r.sequence_counter;
      sample_counter = r.sample_counter;
      fill = h;
      buffer =
          let first = sample_for_terminal mix Terminal.left a in
          length-set first.sound_buffer first.buffer_fill_amount _
          ∙ length-set a.sound_buffer a.buffer_fill_amount _
          ∙ r.buffer;
    };
    fill = let h = r.fill in omega arith;
    counter = refl;
  }

  -- What a round leaves: a unit in range that either goes on or has handed its buffer over.
  record IsRound (result : Bool × Apu) : Type 0 where
    range : IsInRange result.1
    counter : 1 ≤ result.1.frame_sequencer_counter

  either-IsRound :
      (t : Bool) {r1 r2 : Bool × Apu}
      → (t ≡ true → IsRound r1)
      → (t ≡ false → IsRound r2)
      → IsRound (if t then r1 else r2)
  either-IsRound true h1 h2 = h1 refl
  either-IsRound false h1 h2 = h2 refl

  tick_once-IsRound : {a : Apu} → IsInRange a → IsRound (tick_once mix a)
  unfolding tick_once
  tick_once-IsRound {a} r =
      let stepped = step_sequencer-IsInRange r in
      let ticked = tick_channels (step_sequencer a) in
      let t = tick_channels-IsInRange stepped in
      let positive : 1 ≤ ticked.frame_sequencer_counter =
        omega (arith, step_sequencer-pos r, tick_channels-counter (step_sequencer a)) in
      let restarted = recounted _ _ 95 _ t.sequencer t.sequence_counter (omega arith) t.fill t in
      let sampled = generate_samples-IsSampled restarted in
      let full =
        (generate_samples mix (record ticked { down_sample_counter = 95 })).buffer_fill_amount in
      let left = sub8 ticked.down_sample_counter 1 in
      let before = t.fill in
      let grown = sampled.fill in
      let samples = t.sample_counter in
      either-IsRound (left == 0)
        (λ _.
          either-IsRound (full == 4096)
            (λ _. record {
              range = sampled.range 0 (omega arith);
              counter = omega (arith, sampled.counter);
            })
            (λ e. record {
              range = sampled.range full (ground arith);
              counter = omega (arith, sampled.counter);
            }))
        (λ e. record {
          range = recounted _ _ left _ t.sequencer t.sequence_counter (ground arith) t.fill t;
          counter = positive;
        })

  -- However many cycles a tick has, and whatever the mixing of the samples does, it keeps the unit in
  -- range: volumes and outputs within four bits, the indices within the waveforms, the sequencer's
  -- step below 8, and the place of the next pair of samples even and within the buffer.
  pub tick-IsInRange : (cycles : ℕ) (a : Apu) → IsInRange a → IsInRange (tick mix cycles a).0
  unfolding tick
  tick-IsInRange zero a r = r
  tick-IsInRange (suc cycles) a r =
      let round = tick_once-IsRound r in
      let a' = (tick_once mix a).1 in
      let bound = round.range.sequence_counter in
      let positive = round.counter in
      let next =
        recounted _ (sub16 a'.frame_sequencer_counter 1) _ _ round.range.sequencer (omega arith)
          round.range.sample_counter round.range.fill round.range in
      stopped-IsInRange ((tick_once mix a).0) _ _ round.range (tick-IsInRange cycles _ next)
