-- ===== src/Cpu/Flag.antt =====
-- The enumeration `flag` of gameboy/include/gameboy/cpu/cpu.h. Its values are masks of the flag
-- register, which the code joins by `|`.
use gameboi.Base.{ℕ}

abbrev pub none : ℕ
none = 0

abbrev pub carry : ℕ
carry = 0x10

abbrev pub half_carry : ℕ
half_carry = 0x20

abbrev pub negative : ℕ
negative = 0x40

abbrev pub zero : ℕ
zero = 0x80

-- carry | half_carry | negative | zero
abbrev pub all : ℕ
all = 0xF0
