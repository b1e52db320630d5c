-- ===== src/Examples.antt =====
-- Runs of the components at concrete states: machines, cartridges and register values.
mod Machine
mod Core
mod Mmu
mod Cartridge
mod Alu
mod Devices
mod Decode
mod Units
mod Ppu
mod Apu
mod Frames
