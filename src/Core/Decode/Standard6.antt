-- ===== src/Core/Decode/Standard6.antt =====
-- gameboy/src/cpu/cpu.cpp: the standard opcodes 0xC0 to 0xDF.
use gameboi.Base.{ℕ, ◌==◌, not, if◌then◌else◌, u8}
use gameboi.Cpu.Flag
use gameboi.Cpu.State.{test_flag}
use gameboi.Cpu.Registers.{Reg16}
use gameboi.Alu.Arith.{add, add_c, subtract, subtract_c}
use gameboi.Mmu.Bus.{Bus}
use gameboi.Core.Memory.{push, pop}
use gameboi.Core.Control.{jump, rst, call, ret, reti}
use gameboi.Core.Decode.Ending.{Outcome, done, unknown}
use gameboi.Core.Decode.Ending

module _ {W : Type 0} (b : Bus W) where
  unfoldable pub standard_6 : ℕ → ℕ → W → Outcome W
  standard_6 inst val w =
      if inst == 0xC0
      then Ending.branch (not (test_flag Flag.zero (b.cpu w))) w (ret b w)
      else if inst == 0xC1
      then done (pop b Reg16.bc w)
      else if inst == 0xC2
      then Ending.branch (not (test_flag Flag.zero (b.cpu w))) w (Ending.on_cpu b (jump val) w)
      else if inst == 0xC3
      then done (Ending.on_cpu b (jump val) w)
      else if inst == 0xC4
      then Ending.branch (not (test_flag Flag.zero (b.cpu w))) w (call b val w)
      else if inst == 0xC5
      then done (push b Reg16.bc w)
      else if inst == 0xC6
      then done (Ending.on_cpu b (add (u8 val)) w)
      else if inst == 0xC7
      then done (rst b 0x00 w)
      else if inst == 0xC8
      then Ending.branch (test_flag Flag.zero (b.cpu w)) w (ret b w)
      else if inst == 0xC9
      then done (ret b w)
      else if inst == 0xCA
      then Ending.branch (test_flag Flag.zero (b.cpu w)) w (Ending.on_cpu b (jump val) w)
      else if inst == 0xCC
      then Ending.branch (test_flag Flag.zero (b.cpu w)) w (call b val w)
      else if inst == 0xCD
      then done (call b val w)
      else if inst == 0xCE
      then done (Ending.on_cpu b (add_c (u8 val)) w)
      else if inst == 0xCF
      then done (rst b 0x08 w)
      else if inst == 0xD0
      then Ending.branch (not (test_flag Flag.carry (b.cpu w))) w (ret b w)
      else if inst == 0xD1
      then done (pop b Reg16.de w)
      else if inst == 0xD2
      then Ending.branch (not (test_flag Flag.carry (b.cpu w))) w (Ending.on_cpu b (jump val) w)
      else if inst == 0xD4
      then Ending.branch (not (test_flag Flag.carry (b.cpu w))) w (call b val w)
      else if inst == 0xD5
      then done (push b Reg16.de w)
      else if inst == 0xD6
      then done (Ending.on_cpu b (subtract (u8 val)) w)
      else if inst == 0xD7
      then done (rst b 0x10 w)
      else if inst == 0xD8
      then Ending.branch (test_flag Flag.carry (b.cpu w)) w (ret b w)
      else if inst == 0xD9
      then done (reti b w)
      else if inst == 0xDA
      then Ending.branch (test_flag Flag.carry (b.cpu w)) w (Ending.on_cpu b (jump val) w)
      else if inst == 0xDC
      then Ending.branch (test_flag Flag.carry (b.cpu w)) w (call b val w)
      else if inst == 0xDE
      then done (Ending.on_cpu b (subtract_c (u8 val)) w)
      else if inst == 0xDF
      then done (rst b 0x18 w)
      else unknown
