-- ===== src/Apu/Power.antt =====
-- The power switch of the unit.
use gameboi.Base.{ℕ, ◌≡◌, ◌≢◌, false, arith, refl, ap, sym, ◌∙◌}
use mathlib.Core.Path.{subst}
use gameboi.Util.Bit
use gameboi.Apu.Addresses.{nr_52_addr}
use gameboi.Apu.Pulse
use gameboi.Apu.Wave
use gameboi.Apu.Noise
use gameboi.Apu.Unit.{Apu}
use gameboi.Apu.Access.{power_off, on_write, on_read}

turned_off : (val : ℕ) (a : Apu) → Bit.test val 7 ≡ false → on_write nr_52_addr val a ≡ power_off a
unfolding on_write
turned_off val a h = ground arith

record IsOff (a : Apu) : Type 0 where
  power : a.power_on ≡ false
  one : a.channel_1.enabled ≡ false
  two : a.channel_2.enabled ≡ false
  three : a.channel_3.enabled ≡ false
  four : a.channel_4.enabled ≡ false

power_off-IsOff : (a : Apu) → IsOff (power_off a)
unfolding power_off Pulse.disable Wave.disable Noise.disable
power_off-IsOff a = record { power = refl; one = refl; two = refl; three = refl; four = refl }

ignored :
    (address byte : ℕ) (a : Apu)
    → a.power_on ≡ false
    → address ≢ nr_52_addr
    → on_write address byte a ≡ a
unfolding on_write
ignored address byte a off other = ground arith

all_off : (a : Apu) → IsOff a → on_read nr_52_addr a ≡ 0x70
unfolding on_read
all_off a off = rw (off.power, off.one, off.two, off.three, off.four) refl

-- Once a write to NR52 has turned the power off, no write to another register does anything, and
-- NR52 reads as all channels and the power off.
pub on_write-off :
    (val address byte : ℕ) (a : Apu)
    → Bit.test val 7 ≡ false
    → address ≢ nr_52_addr
    → let off = on_write nr_52_addr val a in
      (on_write address byte off ≡ off) × (on_read nr_52_addr off ≡ 0x70)
on_write-off val address byte a h other =
    let off = on_write nr_52_addr val a in
    let turned = turned_off val a h in
    (
      ignored address byte off (ap (λ x. x.power_on) turned ∙ (power_off-IsOff a).power) other,
      all_off off (subst IsOff (sym turned) (power_off-IsOff a)),
    )
