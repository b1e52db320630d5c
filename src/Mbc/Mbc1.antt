-- ===== src/Mbc/Mbc1.antt =====
-- gameboy/include/gameboy/memory/controller/mbc1.h and gameboy/src/memory/controller/mbc1.cpp.
use gameboi.Base.{ℕ, Bool, true, not, ◌==◌, List, get_or, set, if◌then◌else◌, bit_and}
use gameboi.Range
use gameboi.Util.Bit
use gameboi.Mbc.State.{Mbc, set_ram_enabled}
use gameboi.Mbc.State

pub record Mbc1 : Type 0 where
  pub base : Mbc
  pub rom_banking_active : Bool

abbrev pub initial : Mbc1
initial = record { base = State.initial; rom_banking_active = true }

unfoldable pub control : ℕ → ℕ → ℕ → Mbc1 → Mbc1
control ram_bank_count address val m =
    let bank = bit_and val 0x1F in
    if Range.has (Range.up_to 0x1FFF) address
    then if not (ram_bank_count == 0) then record m { base = set_ram_enabled val m.base } else m
    else if Range.has (Range.make 0x2000 0x3FFF) address
    then record m { base = record (m.base) { rom_bank = if bank == 0 then 1 else bank } }
    else if Range.has (Range.make 0x4000 0x5FFF) address
    then record m { base = record (m.base) { ram_bank = bit_and val 0x03 } }
    else if Range.has (Range.make 0x6000 0x7FFF) address
    then record m { rom_banking_active = not (Bit.test val 0) }
    else m

unfoldable pub read_ram : ℕ → List ℕ → ℕ
read_ram address ram = get_or ram address 0

unfoldable pub write_ram : ℕ → ℕ → List ℕ → List ℕ
write_ram address val ram = set ram address val
