-- ===== src/Examples/Cartridge.antt =====
-- An MBC1 cartridge with RAM, and a clock.
use gameboi.Base.{◌<◌, ◌≡◌, length, refl, arith}
use gameboi.Cartridge.{controlled, write_rom, read_ram, write_ram, physical_rom_addr}
use gameboi.Cartridge.Header.{parsed, controller_of}
use gameboi.Cartridge.Banks.{IsRegister}
use gameboi.Cartridge.Loading.{IsFresh, load_rom-IsFresh}
use gameboi.Cartridge.Memory.{IsSound, read_ram-write_ram, write_rom-IsSound}
use gameboi.Cartridge.Session.{Reachable-physical_rom_addr, Reachable-registers}
use gameboi.Mbc.Mbc3.{Rtc}
use gameboi.Examples.Machine.{
  test_rom, nothing_saved, test_cartridge, loaded, enabled_cartridge, enabled_Reachable, enabled_on,
  test_rom-length,
}

Reachable-physical_rom_addr_example :
    physical_rom_addr 0x4000 enabled_cartridge < length enabled_cartridge.rom
unfolding parsed
Reachable-physical_rom_addr_example =
    Reachable-physical_rom_addr test_rom nothing_saved test_cartridge enabled_cartridge 0x4000
      loaded test_rom-length enabled_Reachable (omega arith)

Reachable-registers_example : IsRegister enabled_cartridge.mbc
Reachable-registers_example =
    Reachable-registers test_rom nothing_saved test_cartridge enabled_cartridge loaded
      enabled_Reachable

load_rom-IsFresh_example : IsFresh test_cartridge
load_rom-IsFresh_example = load_rom-IsFresh test_rom nothing_saved test_cartridge loaded

enabled_IsSound : IsSound enabled_cartridge
enabled_IsSound = write_rom-IsSound 0 0x0000 0x0A test_cartridge (load_rom-IsFresh_fresh.sound)
  where
    load_rom-IsFresh_fresh : IsFresh test_cartridge
    load_rom-IsFresh_fresh = load_rom-IsFresh test_rom nothing_saved test_cartridge loaded

read_ram-write_ram_example : read_ram 0xA100 (write_ram 0xA100 0x42 enabled_cartridge) ≡ 0x42
unfolding write_rom controlled parsed controller_of
read_ram-write_ram_example =
    read_ram-write_ram 0xA100 0x42 enabled_cartridge enabled_IsSound enabled_on (omega arith)
      (omega arith) refl

abbrev late_evening : Rtc
late_evening = record { seconds = 59; minutes = 59; hours = 23; days_lower = 255; days_higher = 0 }

abbrev upper_days : Rtc
upper_days = record { seconds = 0; minutes = 0; hours = 0; days_lower = 10; days_higher = 1 }
