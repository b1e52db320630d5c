-- ===== src/Mmu.antt =====
-- gameboy/include/gameboy/memory/mmu.h and gameboy/src/memory/mmu.cpp: the memory map. `work_ram_`
-- and `high_ram_` are lists of bytes; an index outside them is undefined in the code, here a read
-- gives 0 and a write does nothing.
pub mod State
pub mod Bus
pub mod Map
pub mod Bounds
pub mod Wram
pub mod Echo
pub mod Dma
