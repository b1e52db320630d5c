-- ===== src/Util/Carry/Laws.antt =====
-- Carries and borrows as comparisons of sums, `word` as a sum.
use gameboi.Base.{ℕ, ◌+◌, ◌*◌, ◌%◌, ◌<◌, ◌≡◌, ltb, leb, arith}
use gameboi.Base.{bit_and_bit, bit_and_mask, bit_or_fields}
use gameboi.Util.Carry.{
  half_carry8, half_carry16, full_carry8, full_carry16, half_borrow, full_borrow, word,
}

pub half_carry8_lem : (x y : ℕ) → half_carry8 x y ≡ leb 16 (x % 16 + y % 16)
unfolding half_carry8
half_carry8_lem x y =
    ground (arith, bit_and_mask 4 x, bit_and_mask 4 y, bit_and_bit 4 (x % 16 + y % 16))

pub half_carry16_lem : (x y : ℕ) → half_carry16 x y ≡ leb 4096 (x % 4096 + y % 4096)
unfolding half_carry16
half_carry16_lem x y =
    ground (arith, bit_and_mask 12 x, bit_and_mask 12 y, bit_and_bit 12 (x % 4096 + y % 4096))

pub full_carry8_lem : (x y : ℕ) → x < 256 → y < 256 → full_carry8 x y ≡ leb 256 (x + y)
unfolding full_carry8
full_carry8_lem x y hx hy = ground (arith, bit_and_bit 8 (x % 65536 + y % 65536))

pub full_carry16_lem : (x y : ℕ) → x < 65536 → y < 65536 → full_carry16 x y ≡ leb 65536 (x + y)
unfolding full_carry16
full_carry16_lem x y hx hy = ground (arith, bit_and_bit 16 (x + y))

pub half_borrow_lem : (x y : ℕ) → half_borrow x y ≡ ltb (x % 16) (y % 16)
unfolding half_borrow
half_borrow_lem x y = ground (arith, bit_and_mask 4 x, bit_and_mask 4 y)

pub full_borrow_lem : (x y : ℕ) → full_borrow x y ≡ ltb x y
unfolding full_borrow
full_borrow_lem x y = ground arith

pub word_lem : (high low : ℕ) → high < 256 → low < 256 → word high low ≡ high * 256 + low
unfolding word
word_lem high low hh hl = omega (arith, bit_or_fields 8 high low)
