-- ===== src/Cartridge/Banks.antt =====
-- What the bank registers hold.
use gameboi.Base.{
  ℕ, ◌≤◌, ◌<◌, ◌≡◌, Bool, arith, bit_and, bit_and-le_right, bit_or-lt, shl, refl, List, Bool-cases,
  inl, inr,
}
use gameboi.Mbc.State.{Mbc, set_ram_enabled}
use gameboi.Mbc.Mbc1
use gameboi.Mbc.Mbc2
use gameboi.Mbc.Mbc3
use gameboi.Mbc.Mbc3.{latch, update_rtc_latch}
use gameboi.Mbc.Mbc5
use gameboi.Cartridge.{
  Controller, regular, mbc1, mbc2, mbc3, mbc5, Cartridge, controlled, write_rom, write_by,
  write_ram, base_of, ram_enabled, physical_ram_addr,
}

-- The widths of a controller's bank registers, and the bank 0 that three of them cannot select.
pub record Fits (least rom_banks ram_banks : ℕ) (m : Mbc) : Type 0 where
  pub rom_least : least ≤ m.rom_bank
  pub rom_fits : m.rom_bank < rom_banks
  pub ram_fits : m.ram_bank < ram_banks

abbrev pub IsRegister : Controller → Type 0
IsRegister (regular m) = Fits 1 2 1 m
IsRegister (mbc1 m) = Fits 1 32 4 (m.base)
IsRegister (mbc2 m) = Fits 1 16 1 m
IsRegister (mbc3 m) = Fits 1 128 4 (m.base)
IsRegister (mbc5 m) = Fits 0 512 16 m

control1-Fits :
    (count address val : ℕ) (m : Mbc1.Mbc1)
    → Fits 1 32 4 (m.base)
    → Fits 1 32 4 ((Mbc1.control count address val m).base)
unfolding Mbc1.control set_ram_enabled
control1-Fits count address val m f =
    let rom = bit_and-le_right val 0x1F in
    let ram = bit_and-le_right val 0x03 in
    let least = f.rom_least in
    let rom_fits = f.rom_fits in
    let ram_fits = f.ram_fits in
    record { rom_least = ground arith; rom_fits = ground arith; ram_fits = ground arith }

control2-Fits :
    (address val : ℕ) (m : Mbc) → Fits 1 16 1 m → Fits 1 16 1 (Mbc2.control address val m)
unfolding Mbc2.control set_ram_enabled
control2-Fits address val m f =
    let rom = bit_and-le_right val 0x0F in
    let least = f.rom_least in
    let rom_fits = f.rom_fits in
    let ram_fits = f.ram_fits in
    record { rom_least = ground arith; rom_fits = ground arith; ram_fits = ground arith }

-- A latch leaves the bank registers alone.
latch-base : (now val : ℕ) (m : Mbc3.Mbc3) → (latch now val m).base ≡ m.base
unfolding latch update_rtc_latch
latch-base now val m = ground arith

control3-Fits :
    (count : ℕ) (has_rtc : Bool) (now address val : ℕ) (m : Mbc3.Mbc3)
    → Fits 1 128 4 (m.base)
    → Fits 1 128 4 ((Mbc3.control count has_rtc now address val m).base)
unfolding Mbc3.control set_ram_enabled
control3-Fits count has_rtc now address val m f =
    let rom = bit_and-le_right val 0x7F in
    let least = f.rom_least in
    let rom_fits = f.rom_fits in
    let ram_fits = f.ram_fits in
    let latched = latch-base now val m in
    record { rom_least = ground arith; rom_fits = ground arith; ram_fits = ground arith }

control5-Fits :
    (count address val : ℕ) (m : Mbc)
    → val < 256
    → Fits 0 512 16 m
    → Fits 0 512 16 (Mbc5.control count address val m)
unfolding Mbc5.control
control5-Fits count address val m hv f =
    let high = bit_and-le_right (m.rom_bank) 0x0100 in
    let low = bit_and-le_right (m.rom_bank) 0x00FF in
    let bit = bit_and-le_right val 0x01 in
    let first = bit_or-lt 9 (bit_and m.rom_bank 0x0100) val (omega arith) (omega arith) in
    let second =
      bit_or-lt 9 (bit_and m.rom_bank 0x00FF) (shl (bit_and val 0x01) 8) (omega arith)
        (omega arith) in
    let ram = bit_and-le_right val 0x0F in
    let rom_fits = f.rom_fits in
    let ram_fits = f.ram_fits in
    record { rom_least = ground arith; rom_fits = ground arith; ram_fits = ground arith }

-- A write to the ROM's range leaves each bank register in its width, and the ROM bank of an MBC1,
-- MBC2 or MBC3 different from 0.
pub write_rom-IsRegister :
    (now address val : ℕ) (c : Cartridge)
    → val < 256
    → IsRegister (c.mbc)
    → IsRegister ((write_rom now address val c).mbc)
unfolding write_rom controlled
write_rom-IsRegister now address val c hv f = register_controlled now address val c (c.mbc) hv f
  where
    register_controlled :
        (now address val : ℕ) (c : Cartridge) (m : Controller)
        → val < 256
        → IsRegister m
        → IsRegister (controlled now address val c m)
    register_controlled now address val c (regular m) hv f = f
    register_controlled now address val c (mbc1 m) hv f =
        control1-Fits (c.ram_bank_count) address val m f
    register_controlled now address val c (mbc2 m) hv f = control2-Fits address val m f
    register_controlled now address val c (mbc3 m) hv f =
        control3-Fits (c.ram_bank_count) (c.has_rtc) now address val m f
    register_controlled now address val c (mbc5 m) hv f =
        control5-Fits (c.ram_bank_count) address val m hv f

write_by-base :
    (m : Controller) (physical val : ℕ) (ram : List ℕ)
    → base_of ((write_by m physical val ram).0) ≡ base_of m
unfolding write_by Mbc3.write_ram
write_by-base (regular m) physical val ram = refl
write_by-base (mbc1 m) physical val ram = refl
write_by-base (mbc2 m) physical val ram = refl
write_by-base (mbc3 m) physical val ram = ground arith
write_by-base (mbc5 m) physical val ram = refl

-- A write to the external RAM leaves the bank registers and the enable bit alone.
pub write_ram-base :
    (address val : ℕ) (c : Cartridge) → base_of ((write_ram address val c).mbc) ≡ base_of (c.mbc)
unfolding write_ram
write_ram-base address val c =
    let e = write_by-base (c.mbc) (physical_ram_addr address c) val (c.ram) in
    elim (Bool-cases (ram_enabled c)) [ inl on ↦ rw on e | inr off ↦ rw off refl ]

-- A write to the external RAM leaves the bank registers in their widths.
pub write_by-IsRegister :
    (m : Controller) (physical val : ℕ) (ram : List ℕ)
    → IsRegister m
    → IsRegister ((write_by m physical val ram).0)
unfolding write_by Mbc3.write_ram
write_by-IsRegister (regular m) physical val ram f = f
write_by-IsRegister (mbc1 m) physical val ram f = f
write_by-IsRegister (mbc2 m) physical val ram f = f
write_by-IsRegister (mbc3 m) physical val ram f = elim (Bool-cases (m.rtc_enabled)) [
  | inl on ↦ rw on f
  | inr off ↦ rw off f
]
write_by-IsRegister (mbc5 m) physical val ram f = f
