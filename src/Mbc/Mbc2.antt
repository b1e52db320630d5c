-- ===== src/Mbc/Mbc2.antt =====
-- gameboy/include/gameboy/memory/controller/mbc2.h and gameboy/src/memory/controller/mbc2.cpp.
use gameboi.Base.{ℕ, not, ◌==◌, List, get_or, set, if◌then◌else◌, bit_and, bit_or}
use gameboi.Range
use gameboi.Util.Bit
use gameboi.Mbc.State.{Mbc, set_ram_enabled}

unfoldable pub wrap_address : ℕ → ℕ
wrap_address address = bit_and address 0x1FF

unfoldable pub control : ℕ → ℕ → Mbc → Mbc
control address val m =
    let bank = bit_and val 0x0F in
    if Range.has (Range.up_to 0x3FFF) address
    then if not (Bit.test address 8)
      then set_ram_enabled val m
      else record m { rom_bank = if bank == 0 then 1 else bank }
    else m

unfoldable pub read_ram : ℕ → List ℕ → ℕ
read_ram address ram = bit_or (get_or ram (wrap_address address) 0) 0xF0

unfoldable pub write_ram : ℕ → ℕ → List ℕ → List ℕ
write_ram address val ram = set ram (wrap_address address) (bit_and val 0x0F)
