-- ===== src/Mbc/Mbc5.antt =====
-- gameboy/include/gameboy/memory/controller/mbc5.h and gameboy/src/memory/controller/mbc5.cpp.
use gameboi.Base.{ℕ, not, ◌==◌, List, get_or, set, if◌then◌else◌, bit_and, bit_or, shl}
use gameboi.Range
use gameboi.Mbc.State.{Mbc}

unfoldable pub control : ℕ → ℕ → ℕ → Mbc → Mbc
control ram_bank_count address val m =
    if Range.has (Range.up_to 0x1FFF) address
    then if not (ram_bank_count == 0) then record m { ram_enabled = val == 0x0A } else m
    else if Range.has (Range.make 0x2000 0x2FFF) address
    then record m { rom_bank = bit_or (bit_and m.rom_bank 0x0100) val }
    else if Range.has (Range.make 0x3000 0x3FFF) address
    then record m { rom_bank = bit_or (bit_and m.rom_bank 0x00FF) (shl (bit_and val 0x01) 8) }
    else if Range.has (Range.make 0x4000 0x5FFF) address
    then record m { ram_bank = bit_and val 0x0F }
    else m

unfoldable pub read_ram : ℕ → List ℕ → ℕ
read_ram address ram = get_or ram address 0

unfoldable pub write_ram : ℕ → ℕ → List ℕ → List ℕ
write_ram address val ram = set ram address val
