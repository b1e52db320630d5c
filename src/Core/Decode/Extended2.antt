-- ===== src/Core/Decode/Extended2.antt =====
-- gameboy/src/cpu/cpu.cpp: the extended opcodes 0x40 to 0x5F.
use gameboi.Base.{ℕ, ◌==◌, if◌then◌else◌}
use gameboi.Cpu.Registers.{Reg8}
use gameboi.Alu.Bits.{test, test_reg}
use gameboi.Mmu.Bus.{Bus}
use gameboi.Core.Decode.Ending.{Outcome, done, unknown}
use gameboi.Core.Decode.Ending

module _ {W : Type 0} (b : Bus W) where
  unfoldable pub extended_2 : ℕ → W → Outcome W
  extended_2 inst w =
      if inst == 0x40
      then done (Ending.on_cpu b (test_reg Reg8.b 0) w)
      else if inst == 0x41
      then done (Ending.on_cpu b (test_reg Reg8.c 0) w)
      else if inst == 0x42
      then done (Ending.on_cpu b (test_reg Reg8.d 0) w)
      else if inst == 0x43
      then done (Ending.on_cpu b (test_reg Reg8.e 0) w)
      else if inst == 0x44
      then done (Ending.on_cpu b (test_reg Reg8.h 0) w)
      else if inst == 0x45
      then done (Ending.on_cpu b (test_reg Reg8.l 0) w)
      else if inst == 0x46
      then done (Ending.through_memory b (λ v c. (v, test v 0 c)) w)
      else if inst == 0x47
      then done (Ending.on_cpu b (test_reg Reg8.a 0) w)
      else if inst == 0x48
      then done (Ending.on_cpu b (test_reg Reg8.b 1) w)
      else if inst == 0x49
      then done (Ending.on_cpu b (test_reg Reg8.c 1) w)
      else if inst == 0x4A
      then done (Ending.on_cpu b (test_reg Reg8.d 1) w)
      else if inst == 0x4B
      then done (Ending.on_cpu b (test_reg Reg8.e 1) w)
      else if inst == 0x4C
      then done (Ending.on_cpu b (test_reg Reg8.h 1) w)
      else if inst == 0x4D
      then done (Ending.on_cpu b (test_reg Reg8.l 1) w)
      else if inst == 0x4E
      then done (Ending.through_memory b (λ v c. (v, test v 1 c)) w)
      else if inst == 0x4F
      then done (Ending.on_cpu b (test_reg Reg8.a 1) w)
      else if inst == 0x50
      then done (Ending.on_cpu b (test_reg Reg8.b 2) w)
      else if inst == 0x51
      then done (Ending.on_cpu b (test_reg Reg8.c 2) w)
      else if inst == 0x52
      then done (Ending.on_cpu b (test_reg Reg8.d 2) w)
      else if inst == 0x53
      then done (Ending.on_cpu b (test_reg Reg8.e 2) w)
      else if inst == 0x54
      then done (Ending.on_cpu b (test_reg Reg8.h 2) w)
      else if inst == 0x55
      then done (Ending.on_cpu b (test_reg Reg8.l 2) w)
      else if inst == 0x56
      then done (Ending.through_memory b (λ v c. (v, test v 2 c)) w)
      else if inst == 0x57
      then done (Ending.on_cpu b (test_reg Reg8.a 2) w)
      else if inst == 0x58
      then done (Ending.on_cpu b (test_reg Reg8.b 3) w)
      else if inst == 0x59
      then done (Ending.on_cpu b (test_reg Reg8.c 3) w)
      else if inst == 0x5A
      then done (Ending.on_cpu b (test_reg Reg8.d 3) w)
      else if inst == 0x5B
      then done (Ending.on_cpu b (test_reg Reg8.e 3) w)
      else if inst == 0x5C
      then done (Ending.on_cpu b (test_reg Reg8.h 3) w)
      else if inst == 0x5D
      then done (Ending.on_cpu b (test_reg Reg8.l 3) w)
      else if inst == 0x5E
      then done (Ending.through_memory b (λ v c. (v, test v 3 c)) w)
      else if inst == 0x5F
      then done (Ending.on_cpu b (test_reg Reg8.a 3) w)
      else unknown
