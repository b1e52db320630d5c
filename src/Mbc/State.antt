-- ===== src/Mbc/State.antt =====
-- gameboy/include/gameboy/memory/controller/mbc.h and mbc_regular.{h,cpp}: what every controller
-- keeps, and the controller without banks.
use gameboi.Base.{ℕ, Bool, false, ◌==◌, List, get_or, set, bit_and}

pub record Mbc : Type 0 where
  pub rom_bank : ℕ
  pub ram_bank : ℕ
  pub ram_enabled : Bool

abbrev pub initial : Mbc
initial = record { rom_bank = 1; ram_bank = 0; ram_enabled = false }

unfoldable pub set_ram_enabled : ℕ → Mbc → Mbc
set_ram_enabled val m = record m { ram_enabled = bit_and val 0x0F == 0x0A }

-- `mbc_regular`, and the same for `mbc1` and `mbc5`.
abbrev pub read_ram : ℕ → List ℕ → ℕ
read_ram address ram = get_or ram address 0

abbrev pub write_ram : ℕ → ℕ → List ℕ → List ℕ
write_ram address val ram = set ram address val
