-- ===== src/Ppu.antt =====
-- gameboy/src/ppu/ppu.cpp and gameboy/include/gameboy/ppu: the picture unit.
pub mod Color
pub mod Stat
pub mod Irq
pub mod State
pub mod Memory
pub mod Screen
pub mod Dma
pub mod Palettes
pub mod Control
pub mod Render
pub mod Tick
pub mod Timing
