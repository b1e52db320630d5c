-- ===== src/Register16.antt =====
-- gameboy/include/gameboy/cpu/register16.h and gameboy/src/cpu/register16.cpp: two bytes.
pub mod Laws
use gameboi.Base.{ℕ, ◌+◌, ◌<◌, u8, u16, u32, shr, sub32, bit_and, sign_extend8}
use gameboi.Util.Carry.{word}

pub record Register16 : Type 0 where
  pub high : ℕ
  pub low : ℕ

pub record IsBytes (r : Register16) : Type 0 where
  pub high_fits : r.high < 256
  pub low_fits : r.low < 256

unfoldable pub value : Register16 → ℕ
value r = word r.high r.low

-- The constructor from a `uint16_t`.
unfoldable pub of_value : ℕ → Register16
of_value v = record { high = u8 (shr v 8); low = u8 (bit_and v 0xFF) }

-- `operator=(uint16_t)`: both halves are written.
unfoldable pub assign : ℕ → Register16
assign val = record { high = bit_and (shr val 8) 0xFF; low = bit_and val 0xFF }

-- `operator=(const address8&)`
unfoldable pub assign_address8 : ℕ → Register16
assign_address8 address = record { high = 0; low = address }

-- `operator+(uint32_t)` and `operator-(uint32_t)`
abbrev pub add : Register16 → ℕ → ℕ
add r val = u32 (value r + val)

abbrev pub sub : Register16 → ℕ → ℕ
sub r val = sub32 (value r) val

-- `operator+=(uint16_t)` and `operator-=(uint16_t)`
unfoldable pub add_assign : Register16 → ℕ → Register16
add_assign r val = assign (u16 (add r val))

unfoldable pub sub_assign : Register16 → ℕ → Register16
sub_assign r val = assign (u16 (sub r val))

-- `operator+=(const address8&)`: the address counts as an `int8_t`.
unfoldable pub add_assign_address8 : Register16 → ℕ → Register16
add_assign_address8 r address = assign (u16 (value r + sign_extend8 address))

-- `operator++()` and `operator--()`
unfoldable pub increment : Register16 → Register16
increment r = add_assign r 1

unfoldable pub decrement : Register16 → Register16
decrement r = sub_assign r 1

-- `operator++(int)`: the copy, and the register after it.
unfoldable pub post_increment : Register16 → Register16 × Register16
post_increment r = (r, increment r)

unfoldable pub post_decrement : Register16 → Register16 × Register16
post_decrement r = (r, decrement r)
