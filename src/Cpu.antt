-- ===== src/Cpu.antt =====
-- gameboy/include/gameboy/cpu and gameboy/src/cpu: the processor's state, its flags and its ALU.
pub mod Flag
pub mod Interrupt
pub mod State
pub mod Registers
pub mod Request
pub mod Reset
