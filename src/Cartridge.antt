-- ===== src/Cartridge.antt =====
-- gameboy/include/gameboy/cartridge.h and gameboy/src/cartridge.cpp: the cartridge's memory behind
-- its bank controller. `visit_nt` on the variant `mbc_` is a match on `Controller`. An index
-- outside `rom_` or `ram_` is undefined in the code; here a read gives 0 and a write does nothing.
pub mod Header
pub mod Loading
pub mod Session
pub mod Bounds
pub mod Banks
pub mod Memory
use gameboi.Base.{
  ℕ, ◌+◌, ◌-◌, ◌*◌, ◌%◌, ◌^◌, Bool, true, false, not, List, get_or, if◌then◌else◌, bit_and, bit_or,
  shl, u32, sub32,
}
use gameboi.Range
use gameboi.Mbc.State.{Mbc}
use gameboi.Mbc.State
use gameboi.Mbc.Mbc1.{Mbc1}
use gameboi.Mbc.Mbc1
use gameboi.Mbc.Mbc2
use gameboi.Mbc.Mbc3.{Mbc3}
use gameboi.Mbc.Mbc3
use gameboi.Mbc.Mbc5

-- The variant `mbc_`.
pub data Controller : Type 0 where
  regular : Mbc → Controller
  mbc1 : Mbc1 → Controller
  mbc2 : Mbc → Controller
  mbc3 : Mbc3 → Controller
  mbc5 : Mbc → Controller

pub record Cartridge : Type 0 where
  pub cgb_enabled : Bool
  pub has_battery : Bool
  pub has_rtc : Bool
  pub rom_bank_count : ℕ
  pub ram_bank_count : ℕ
  pub rom : List ℕ
  pub ram : List ℕ
  pub mbc : Controller

abbrev pub first_rom_bank_range : Range.Range
first_rom_bank_range = Range.up_to 0x3FFF

-- The part that every controller has.
abbrev pub base_of : Controller → Mbc
base_of (regular m) = m
base_of (mbc1 m) = m.base
base_of (mbc2 m) = m
base_of (mbc3 m) = m.base
base_of (mbc5 m) = m

unfoldable pub ram_enabled : Cartridge → Bool
ram_enabled c = (base_of c.mbc).ram_enabled

-- The bank number before it is cut to the number of banks.
unfoldable pub selected_rom_bank : ℕ → Controller → ℕ
selected_rom_bank address (mbc1 m) =
    if Range.has first_rom_bank_range address
    then if m.rom_banking_active then 0 else shl m.base.ram_bank 5
    else bit_or m.base.rom_bank (shl m.base.ram_bank 5)
selected_rom_bank address m =
    if Range.has first_rom_bank_range address then 0 else (base_of m).rom_bank

unfoldable pub rom_bank : ℕ → Cartridge → ℕ
rom_bank address c = bit_and (selected_rom_bank address c.mbc) (sub32 c.rom_bank_count 1)

unfoldable pub selected_ram_bank : Controller → ℕ
selected_ram_bank (mbc1 m) = if m.rom_banking_active then 0 else m.base.ram_bank
selected_ram_bank m = (base_of m).ram_bank

unfoldable pub ram_bank : Cartridge → ℕ
ram_bank c = bit_and (selected_ram_bank c.mbc) (sub32 c.ram_bank_count 1)

-- `8_kb * ram_bank()`, a `size_t`; the address lies in the external RAM's range.
unfoldable pub physical_ram_addr : ℕ → Cartridge → ℕ
physical_ram_addr address c = address - 0xA000 + 8 * 1024 * ram_bank c

-- The sum of `size_t`s wraps where the bank is 0.
unfoldable pub physical_rom_addr : ℕ → Cartridge → ℕ
physical_rom_addr address c =
    if Range.has first_rom_bank_range address
    then address + 16 * 1024 * rom_bank address c
    else (address + (16 * 1024 * rom_bank address c + 2 ^ 64 - 16 * 1024)) % 2 ^ 64

unfoldable pub read_rom : ℕ → Cartridge → ℕ
read_rom address c = get_or c.rom (physical_rom_addr address c) 0

-- What `control` leaves in the variant.
unfoldable pub controlled : ℕ → ℕ → ℕ → Cartridge → Controller → Controller
controlled now address val c (regular m) = regular m
controlled now address val c (mbc1 m) = mbc1 (Mbc1.control c.ram_bank_count address val m)
controlled now address val c (mbc2 m) = mbc2 (Mbc2.control address val m)
controlled now address val c (mbc3 m) =
    mbc3 (Mbc3.control c.ram_bank_count c.has_rtc now address val m)
controlled now address val c (mbc5 m) = mbc5 (Mbc5.control c.ram_bank_count address val m)

-- `now` is what `current_time()` returns, if the write latches the clock.
unfoldable pub write_rom : ℕ → ℕ → ℕ → Cartridge → Cartridge
write_rom now address val c = record c { mbc = controlled now address val c c.mbc }

unfoldable pub read_by : Controller → ℕ → List ℕ → ℕ
read_by (regular m) physical ram = State.read_ram physical ram
read_by (mbc1 m) physical ram = Mbc1.read_ram physical ram
read_by (mbc2 m) physical ram = Mbc2.read_ram physical ram
read_by (mbc3 m) physical ram = Mbc3.read_ram physical m ram
read_by (mbc5 m) physical ram = Mbc5.read_ram physical ram

unfoldable pub read_ram : ℕ → Cartridge → ℕ
read_ram address c =
    if not (ram_enabled c) then 0xFF else read_by c.mbc (physical_ram_addr address c) c.ram

unfoldable pub write_by : Controller → ℕ → ℕ → List ℕ → Controller × List ℕ
write_by (regular m) physical val ram = (regular m, State.write_ram physical val ram)
write_by (mbc1 m) physical val ram = (mbc1 m, Mbc1.write_ram physical val ram)
write_by (mbc2 m) physical val ram = (mbc2 m, Mbc2.write_ram physical val ram)
write_by (mbc3 m) physical val ram =
    let (m', ram') = Mbc3.write_ram physical val m ram in (mbc3 m', ram')
write_by (mbc5 m) physical val ram = (mbc5 m, Mbc5.write_ram physical val ram)

unfoldable pub write_ram : ℕ → ℕ → Cartridge → Cartridge
write_ram address val c =
    let written = write_by c.mbc (physical_ram_addr address c) val c.ram in
    if not (ram_enabled c) then c else record c { mbc = written.0; ram = written.1 }
