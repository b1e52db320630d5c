-- ===== src/Core/Decode/Extended3.antt =====
-- gameboy/src/cpu/cpu.cpp: the extended opcodes 0x60 to 0x7F.
use gameboi.Base.{ℕ, ◌==◌, if◌then◌else◌}
use gameboi.Cpu.Registers.{Reg8}
use gameboi.Alu.Bits.{test, test_reg}
use gameboi.Mmu.Bus.{Bus}
use gameboi.Core.Decode.Ending.{Outcome, done, unknown}
use gameboi.Core.Decode.Ending

module _ {W : Type 0} (b : Bus W) where
  unfoldable pub extended_3 : ℕ → W → Outcome W
  extended_3 inst w =
      if inst == 0x60
      then done (Ending.on_cpu b (test_reg Reg8.b 4) w)
      else if inst == 0x61
      then done (Ending.on_cpu b (test_reg Reg8.c 4) w)
      else if inst == 0x62
      then done (Ending.on_cpu b (test_reg Reg8.d 4) w)
      else if inst == 0x63
      then done (Ending.on_cpu b (test_reg Reg8.e 4) w)
      else if inst == 0x64
      then done (Ending.on_cpu b (test_reg Reg8.h 4) w)
      else if inst == 0x65
      then done (Ending.on_cpu b (test_reg Reg8.l 4) w)
      else if inst == 0x66
      then done (Ending.through_memory b (λ v c. (v, test v 4 c)) w)
      else if inst == 0x67
      then done (Ending.on_cpu b (test_reg Reg8.a 4) w)
      else if inst == 0x68
      then done (Ending.on_cpu b (test_reg Reg8.b 5) w)
      else if inst == 0x69
      then done (Ending.on_cpu b (test_reg Reg8.c 5) w)
      else if inst == 0x6A
      then done (Ending.on_cpu b (test_reg Reg8.d 5) w)
      else if inst == 0x6B
      then done (Ending.on_cpu b (test_reg Reg8.e 5) w)
      else if inst == 0x6C
      then done (Ending.on_cpu b (test_reg Reg8.h 5) w)
      else if inst == 0x6D
      then done (Ending.on_cpu b (test_reg Reg8.l 5) w)
      else if inst == 0x6E
      then done (Ending.through_memory b (λ v c. (v, test v 5 c)) w)
      else if inst == 0x6F
      then done (Ending.on_cpu b (test_reg Reg8.a 5) w)
      else if inst == 0x70
      then done (Ending.on_cpu b (test_reg Reg8.b 6) w)
      else if inst == 0x71
      then done (Ending.on_cpu b (test_reg Reg8.c 6) w)
      else if inst == 0x72
      then done (Ending.on_cpu b (test_reg Reg8.d 6) w)
      else if inst == 0x73
      then done (Ending.on_cpu b (test_reg Reg8.e 6) w)
      else if inst == 0x74
      then done (Ending.on_cpu b (test_reg Reg8.h 6) w)
      else if inst == 0x75
      then done (Ending.on_cpu b (test_reg Reg8.l 6) w)
      else if inst == 0x76
      then done (Ending.through_memory b (λ v c. (v, test v 6 c)) w)
      else if inst == 0x77
      then done (Ending.on_cpu b (test_reg Reg8.a 6) w)
      else if inst == 0x78
      then done (Ending.on_cpu b (test_reg Reg8.b 7) w)
      else if inst == 0x79
      then done (Ending.on_cpu b (test_reg Reg8.c 7) w)
      else if inst == 0x7A
      then done (Ending.on_cpu b (test_reg Reg8.d 7) w)
      else if inst == 0x7B
      then done (Ending.on_cpu b (test_reg Reg8.e 7) w)
      else if inst == 0x7C
      then done (Ending.on_cpu b (test_reg Reg8.h 7) w)
      else if inst == 0x7D
      then done (Ending.on_cpu b (test_reg Reg8.l 7) w)
      else if inst == 0x7E
      then done (Ending.through_memory b (λ v c. (v, test v 7 c)) w)
      else if inst == 0x7F
      then done (Ending.on_cpu b (test_reg Reg8.a 7) w)
      else unknown
