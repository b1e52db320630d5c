-- ===== src/Apu.antt =====
-- gameboy/src/apu and gameboy/include/gameboy/apu: the sound unit.
pub mod Registers
pub mod Envelope
pub mod Pulse
pub mod Wave
pub mod Noise
pub mod Addresses
pub mod Unit
pub mod Access
pub mod Levels
pub mod Length
pub mod Power
