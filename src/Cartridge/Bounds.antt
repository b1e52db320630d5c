-- ===== src/Cartridge/Bounds.antt =====
-- The physical addresses stay inside `rom_` and `ram_`.
use gameboi.Base.{ℕ, ◌*◌, ◌^◌, ◌≤◌, ◌<◌, ◌≡◌, length, arith, bit_and-le_right, sub32}
use gameboi.Cartridge.{
  Cartridge, selected_rom_bank, selected_ram_bank, rom_bank, ram_bank, physical_rom_addr,
  physical_ram_addr,
}

-- A bank number is below the number of banks.
pub rom_bank-lt :
    (address : ℕ) (c : Cartridge)
    → 0 < c.rom_bank_count
    → c.rom_bank_count < 2 ^ 32
    → rom_bank address c < c.rom_bank_count
unfolding rom_bank
rom_bank-lt address c h hw =
    let le = bit_and-le_right (selected_rom_bank address c.mbc) (sub32 c.rom_bank_count 1) in
    omega arith

pub ram_bank-lt :
    (c : Cartridge)
    → 0 < c.ram_bank_count
    → c.ram_bank_count < 2 ^ 32
    → ram_bank c < c.ram_bank_count
unfolding ram_bank
ram_bank-lt c h hw =
    let le = bit_and-le_right (selected_ram_bank c.mbc) (sub32 c.ram_bank_count 1) in omega arith

-- Every read of the first bank's range falls into the ROM of the number of 16 KB banks that the
-- cartridge counts.
pub physical_rom_addr-lt :
    (address : ℕ) (c : Cartridge)
    → 0 < c.rom_bank_count
    → c.rom_bank_count ≤ 512
    → address < 0x8000
    → length c.rom ≡ c.rom_bank_count * (16 * 1024)
    → physical_rom_addr address c < length c.rom
unfolding physical_rom_addr
physical_rom_addr-lt address c h hc ha hl =
    let bank = rom_bank-lt address c h (omega arith) in ground arith

-- An address of the external RAM, in its bank.
pub physical_ram_addr-lt :
    (address : ℕ) (c : Cartridge)
    → 0 < c.ram_bank_count
    → c.ram_bank_count < 2 ^ 32
    → 0xA000 ≤ address
    → address < 0xC000
    → physical_ram_addr address c < c.ram_bank_count * (8 * 1024)
unfolding physical_ram_addr
physical_ram_addr-lt address c h hw lo hi = let bank = ram_bank-lt c h hw in omega arith
