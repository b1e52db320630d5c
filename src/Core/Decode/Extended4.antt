-- ===== src/Core/Decode/Extended4.antt =====
-- gameboy/src/cpu/cpu.cpp: the extended opcodes 0x80 to 0x9F.
use gameboi.Base.{ℕ, ◌==◌, if◌then◌else◌}
use gameboi.Cpu.Registers.{Reg8}
use gameboi.Alu.Bits.{reset, reset_reg}
use gameboi.Mmu.Bus.{Bus}
use gameboi.Core.Decode.Ending.{Outcome, done, unknown}
use gameboi.Core.Decode.Ending

module _ {W : Type 0} (b : Bus W) where
  unfoldable pub extended_4 : ℕ → W → Outcome W
  extended_4 inst w =
      if inst == 0x80
      then done (Ending.on_cpu b (reset_reg Reg8.b 0) w)
      else if inst == 0x81
      then done (Ending.on_cpu b (reset_reg Reg8.c 0) w)
      else if inst == 0x82
      then done (Ending.on_cpu b (reset_reg Reg8.d 0) w)
      else if inst == 0x83
      then done (Ending.on_cpu b (reset_reg Reg8.e 0) w)
      else if inst == 0x84
      then done (Ending.on_cpu b (reset_reg Reg8.h 0) w)
      else if inst == 0x85
      then done (Ending.on_cpu b (reset_reg Reg8.l 0) w)
      else if inst == 0x86
      then done (Ending.through_memory b (λ v c. (reset v 0, c)) w)
      else if inst == 0x87
      then done (Ending.on_cpu b (reset_reg Reg8.a 0) w)
      else if inst == 0x88
      then done (Ending.on_cpu b (reset_reg Reg8.b 1) w)
      else if inst == 0x89
      then done (Ending.on_cpu b (reset_reg Reg8.c 1) w)
      else if inst == 0x8A
      then done (Ending.on_cpu b (reset_reg Reg8.d 1) w)
      else if inst == 0x8B
      then done (Ending.on_cpu b (reset_reg Reg8.e 1) w)
      else if inst == 0x8C
      then done (Ending.on_cpu b (reset_reg Reg8.h 1) w)
      else if inst == 0x8D
      then done (Ending.on_cpu b (reset_reg Reg8.l 1) w)
      else if inst == 0x8E
      then done (Ending.through_memory b (λ v c. (reset v 1, c)) w)
      else if inst == 0x8F
      then done (Ending.on_cpu b (reset_reg Reg8.a 1) w)
      else if inst == 0x90
      then done (Ending.on_cpu b (reset_reg Reg8.b 2) w)
      else if inst == 0x91
      then done (Ending.on_cpu b (reset_reg Reg8.c 2) w)
      else if inst == 0x92
      then done (Ending.on_cpu b (reset_reg Reg8.d 2) w)
      else if inst == 0x93
      then done (Ending.on_cpu b (reset_reg Reg8.e 2) w)
      else if inst == 0x94
      then done (Ending.on_cpu b (reset_reg Reg8.h 2) w)
      else if inst == 0x95
      then done (Ending.on_cpu b (reset_reg Reg8.l 2) w)
      else if inst == 0x96
      then done (Ending.through_memory b (λ v c. (reset v 2, c)) w)
      else if inst == 0x97
      then done (Ending.on_cpu b (reset_reg Reg8.a 2) w)
      else if inst == 0x98
      then done (Ending.on_cpu b (reset_reg Reg8.b 3) w)
      else if inst == 0x99
      then done (Ending.on_cpu b (reset_reg Reg8.c 3) w)
      else if inst == 0x9A
      then done (Ending.on_cpu b (reset_reg Reg8.d 3) w)
      else if inst == 0x9B
      then done (Ending.on_cpu b (reset_reg Reg8.e 3) w)
      else if inst == 0x9C
      then done (Ending.on_cpu b (reset_reg Reg8.h 3) w)
      else if inst == 0x9D
      then done (Ending.on_cpu b (reset_reg Reg8.l 3) w)
      else if inst == 0x9E
      then done (Ending.through_memory b (λ v c. (reset v 3, c)) w)
      else if inst == 0x9F
      then done (Ending.on_cpu b (reset_reg Reg8.a 3) w)
      else unknown
