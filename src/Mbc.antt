-- ===== src/Mbc.antt =====
-- gameboy/include/gameboy/memory/controller and gameboy/src/memory/controller: the memory bank
-- controllers. A controller reads `ram_bank_count`, `has_rtc` and `ram` of its cartridge; these
-- are arguments here. A read or write outside the vector `ram` is undefined in the code; here a
-- read gives 0 and a write does nothing, and `Cartridge.Bounds` shows that neither happens.
pub mod State
pub mod Mbc1
pub mod Mbc2
pub mod Mbc3
pub mod Mbc5
