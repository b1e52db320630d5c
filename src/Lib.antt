-- ===== src/Lib.antt =====
-- The emulator: processor, memory map, cartridge, timer, joypad, link, picture and sound units.
--
-- The program. `gameboy` (gameboy/src/gameboy.cpp) owns the components; each reaches the others
-- through `bus` (gameboy/include/gameboy/bus.h). The processor reads and writes bytes through `mmu`,
-- which hands an address to the cartridge, the picture unit, its own two memories or the handlers
-- that a component has registered for it. A device asks for attention by setting a bit of the
-- processor's interrupt flags, and `process_interrupts` turns that into a call.
--
-- The files and the code they are about, paths from the repository's root:
--   Base            shared names: tests, lists, signed numbers, words, bit operations
--   Util            gameboy/include/gameboy/util/mathutil.h
--   Register8, Register16
--                   gameboy/include/gameboy/cpu/register8.h, register16.h and their .cpp files
--   Cpu             gameboy/include/gameboy/cpu/cpu.h: state, flags, registers, interrupt registers,
--                   `reset`
--   Alu             gameboy/src/cpu/alu.cpp, an operation `op` of the code being `op` here, and its
--                   overload for a register `op_reg`
--   Core            gameboy/src/cpu/cpu.cpp: memory access, stack, jumps, calls, halt and stop,
--                   `process_interrupts`, and what `tick` does after an instruction (`settle`).
--                   Core.Decode: the two `decode` switches, cut at every 32 opcodes, the tables of
--                   gameboy/include/gameboy/cpu/instruction_info.h, and `tick`
--   Timer, Joypad, Link
--                   gameboy/src/timer/timer.cpp, joypad/joypad.cpp, link/link.cpp
--   Range           gameboy/include/gameboy/memory/address_range.h, memory_constants.h
--   Mbc             gameboy/src/memory/controller: the five bank controllers, and the clock of one
--   Cartridge       gameboy/src/cartridge.cpp: header, memory behind a controller, sequences of writes
--   Mmu             gameboy/src/memory/mmu.cpp over the interface `Mmu.Bus`
--   System          the machine as one record, which fills that interface, over an interface for the
--                   picture and sound units
--   Ppu             gameboy/src/ppu/ppu.cpp with gameboy/include/gameboy/ppu: memory, registers,
--                   palettes, transfers, the modes of `tick` (Ppu.Tick) and the renderer
--                   (Ppu.Render); Ppu.Timing: what a tick does to the counters alone
--   Apu             gameboy/src/apu with gameboy/include/gameboy/apu: the four channels, the unit's
--                   `tick` and its registers
--   Machine         gameboy/src/gameboy.cpp: the two units as the devices of System, the whole
--                   `tick`, `tick_one_frame` and `load_rom`
--   Examples        runs at concrete states
--
-- How the code is read. A class is a record of its fields, a member function that changes them a
-- function to the new record, and one that also changes another component a function on the pair.
-- A `uint8_t` is a number below 256, and every place where the code wraps around is written out; a
-- signed byte is its two's complement pattern. `std::vector` is a list, and an index outside it,
-- undefined in the code, reads as 0 and writes nothing; the theorems on bounds show where that does
-- not happen. `std::terminate` is `none`. A delegate is a function. The system's clock is an argument.
--
-- Bounds and fuel. All loops of the code that is modelled but two count up to a number known
-- beforehand (the bytes of a transfer, the addresses of the header, the tiles of a line, the cycles of
-- a tick) and are structural recursions on it. The two of `tick_one_frame` run on fuel, and more fuel
-- than a frame has dots, 70224, is enough for each. A transfer that the program starts writes through
-- the memory map, and so may start another: `devices_at` bounds how deep these calls are nested by
-- `depth`, and the theorems on transfers hold at every depth.
--
-- Parameters. The mixing of the channels' outputs to a sample, which the code does in floating point,
-- is the argument `mix`; the callbacks of the two units keep what they are called with.
--
-- Not modelled. The writing of save files; the mnemonics of the instruction tables; what only a build
-- with the debugger has; logging, the debugger and the frontend; the other palettes for the gray
-- machine, which only the frontend chooses.
pub mod Base
pub mod Util
pub mod Register8
pub mod Cpu
pub mod Alu
pub mod Timer
pub mod Joypad
pub mod Link
pub mod Range
pub mod Mbc
pub mod Cartridge
pub mod Mmu
pub mod Core
pub mod Apu
pub mod Ppu
pub mod System
pub mod Machine
pub mod Examples
pub mod Register16
