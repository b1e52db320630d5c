-- ===== src/Ppu/Stat/Laws.antt =====
-- The mode's two bits of STAT under the operations on the register.
use gameboi.Base.{
  ℕ, ◌-◌, ◌/◌, ◌%◌, ◌^◌, ◌≡◌, bit_and, bit_or, bit_and_mask, bit_and_lowest, bit_or_lowest, arith,
  ap, refl, sym, ◌∙◌, ◌<◌,
}
use gameboi.Util.Bit
use gameboi.Util.Bit.Laws.{set_lem}
use gameboi.Ppu.Stat.{
  StatMode, number_of, mode_of, get_mode, set_mode, set_coincidence_flag, reset_coincidence_flag,
}

mode_of-number_of : (m : StatMode) → mode_of (number_of m) ≡ m
mode_of-number_of StatMode.h_blank = refl
mode_of-number_of StatMode.v_blank = refl
mode_of-number_of StatMode.reading_oam = refl
mode_of-number_of StatMode.reading_oam_vram = refl

number_of-lt : (m : StatMode) → number_of m < 4
number_of-lt StatMode.h_blank = omega arith
number_of-lt StatMode.v_blank = omega arith
number_of-lt StatMode.reading_oam = omega arith
number_of-lt StatMode.reading_oam_vram = omega arith

low_clear : (n : ℕ) → bit_and n 0xFC % 4 ≡ 0
low_clear n = omega (arith, bit_and_lowest n 0xFC, bit_and_lowest (n / 2) 0x7E)

or_low : (a k : ℕ) → a % 4 ≡ 0 → k < 4 → bit_or a k % 4 ≡ k
or_low a k h hk = ground (arith, bit_or_lowest a k, bit_or_lowest (a / 2) (k / 2))

pub get_mode-set_mode : (m : StatMode) (stat : ℕ) → get_mode (set_mode m stat) ≡ m
unfolding get_mode set_mode
get_mode-set_mode m stat =
    ap mode_of (
      bit_and_mask 2 (bit_or (bit_and stat 0xFC) (number_of m))
      ∙ or_low (bit_and stat 0xFC) (number_of m) (low_clear stat) (number_of-lt m))
    ∙ mode_of-number_of m

set_low : (n : ℕ) → Bit.set n 2 % 4 ≡ n % 4
set_low n = omega (arith, set_lem n 2)

reset_low : (n : ℕ) → Bit.reset n 2 % 4 ≡ n % 4
unfolding Bit.reset
reset_low n =
    ground (arith, bit_and_lowest n (2 ^ 32 - 1 - 4), bit_and_lowest (n / 2) (2 ^ 31 - 1 - 2))

pub get_mode-set_coincidence_flag :
    (stat : ℕ) → get_mode (set_coincidence_flag stat) ≡ get_mode stat
unfolding get_mode set_coincidence_flag
get_mode-set_coincidence_flag stat =
    ap mode_of (bit_and_mask 2 (Bit.set stat 2) ∙ set_low stat ∙ sym (bit_and_mask 2 stat))

pub get_mode-reset_coincidence_flag :
    (stat : ℕ) → get_mode (reset_coincidence_flag stat) ≡ get_mode stat
unfolding get_mode reset_coincidence_flag
get_mode-reset_coincidence_flag stat =
    ap mode_of (bit_and_mask 2 (Bit.reset stat 2) ∙ reset_low stat ∙ sym (bit_and_mask 2 stat))
