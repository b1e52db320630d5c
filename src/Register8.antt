-- ===== src/Register8.antt =====
-- gameboy/include/gameboy/cpu/register8.h: a `register8` is its byte; these are the operators that
-- change one. The casts back to `uint8_t` are written out.
use gameboi.Base.{ℕ, ◌+◌, ◌-◌, u8, sub8, bit_and, bit_or, bit_xor}

abbrev pub add_assign : ℕ → ℕ → ℕ
add_assign bits val = u8 (bits + val)

abbrev pub sub_assign : ℕ → ℕ → ℕ
sub_assign bits val = sub8 bits val

abbrev pub and_assign : ℕ → ℕ → ℕ
and_assign bits val = bit_and bits val

abbrev pub or_assign : ℕ → ℕ → ℕ
or_assign bits val = bit_or bits val

abbrev pub xor_assign : ℕ → ℕ → ℕ
xor_assign bits val = bit_xor bits val

-- `operator~` builds a `register8`, so that only the low eight bits of `~bits_` stay.
abbrev pub complement : ℕ → ℕ
complement bits = 0xFF - bits
