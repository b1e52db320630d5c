-- ===== src/Util/Carry.antt =====
-- gameboy/include/gameboy/util/mathutil.h: carries, borrows and `word`. The overloads on
-- `uint8_t` and `uint16_t` are told apart by a suffix.
pub mod Laws
use gameboi.Base.{ℕ, ◌+◌, Bool, ltb, bit_and, bit_or, shl, u16}
use gameboi.Util.Mask

unfoldable pub half_carry8 : ℕ → ℕ → Bool
unfolding Mask.test
half_carry8 x y = Mask.test (bit_and x 0x0F + bit_and y 0x0F) 0x10

unfoldable pub half_carry16 : ℕ → ℕ → Bool
unfolding Mask.test
half_carry16 x y = Mask.test (bit_and x 0x0FFF + bit_and y 0x0FFF) 0x1000

unfoldable pub full_carry8 : ℕ → ℕ → Bool
unfolding Mask.test
full_carry8 x y = Mask.test (u16 x + u16 y) 0x100

unfoldable pub full_carry16 : ℕ → ℕ → Bool
unfolding Mask.test
full_carry16 x y = Mask.test (x + y) 0x1_0000

unfoldable pub half_borrow : ℕ → ℕ → Bool
half_borrow x y = ltb (bit_and x 0x0F) (bit_and y 0x0F)

unfoldable pub full_borrow : ℕ → ℕ → Bool
full_borrow x y = ltb x y

unfoldable pub word : ℕ → ℕ → ℕ
word high low = u16 (bit_or (shl high 8) low)
