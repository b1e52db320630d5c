-- ===== src/Apu/Envelope.antt =====
-- gameboy/src/apu: `envelope_click`, which `pulse_channel` and `noise_channel` have in common.
use gameboi.Base.{ℕ, ◌+◌, ◌-◌, Bool, ltb, if◌then◌else◌, sub32, is_negative32, ◌||◌, ◌==◌}
use gameboi.Apu.Registers.{Envelope, envelope_period, is_increase, or_eight}

-- `x <= 0` of an `int32_t`
abbrev pub is_spent32 : ℕ → Bool
is_spent32 x = is_negative32 x || x == 0

-- The volume one step up or down, within 0 and 15.
abbrev pub stepped : Bool → ℕ → ℕ
stepped increase volume =
    if increase
    then if ltb volume 15 then volume + 1 else volume
    else if ltb 0 volume
    then volume - 1
    else volume

unfoldable pub envelope_click : Envelope × ℕ → Envelope × ℕ
envelope_click (e, volume) =
    let left = sub32 e.timer 1 in
    let period = envelope_period e in
    if is_spent32 left
    then (
      record e { timer = or_eight period },
      if ltb 0 period then stepped (is_increase e) volume else volume,
    )
    else (record e { timer = left }, volume)
