-- ===== src/Core.antt =====
-- gameboy/src/cpu/cpu.cpp: the processor's instructions that reach memory, its jumps, and its
-- interrupts, over a machine that it reaches through `Mmu.Bus`.
pub mod Memory
pub mod Control
pub mod Interrupts
pub mod Stack
pub mod Calls
pub mod Dispatch
pub mod Timing
pub mod Decode
