-- ===== src/Core/Decode/Extended5.antt =====
-- gameboy/src/cpu/cpu.cpp: the extended opcodes 0xA0 to 0xBF.
use gameboi.Base.{ℕ, ◌==◌, if◌then◌else◌}
use gameboi.Cpu.Registers.{Reg8}
use gameboi.Alu.Bits.{reset, reset_reg}
use gameboi.Mmu.Bus.{Bus}
use gameboi.Core.Decode.Ending.{Outcome, done, unknown}
use gameboi.Core.Decode.Ending

module _ {W : Type 0} (b : Bus W) where
  unfoldable pub extended_5 : ℕ → W → Outcome W
  extended_5 inst w =
      if inst == 0xA0
      then done (Ending.on_cpu b (reset_reg Reg8.b 4) w)
      else if inst == 0xA1
      then done (Ending.on_cpu b (reset_reg Reg8.c 4) w)
      else if inst == 0xA2
      then done (Ending.on_cpu b (reset_reg Reg8.d 4) w)
      else if inst == 0xA3
      then done (Ending.on_cpu b (reset_reg Reg8.e 4) w)
      else if inst == 0xA4
      then done (Ending.on_cpu b (reset_reg Reg8.h 4) w)
      else if inst == 0xA5
      then done (Ending.on_cpu b (reset_reg Reg8.l 4) w)
      else if inst == 0xA6
      then done (Ending.through_memory b (λ v c. (reset v 4, c)) w)
      else if inst == 0xA7
      then done (Ending.on_cpu b (reset_reg Reg8.a 4) w)
      else if inst == 0xA8
      then done (Ending.on_cpu b (reset_reg Reg8.b 5) w)
      else if inst == 0xA9
      then done (Ending.on_cpu b (reset_reg Reg8.c 5) w)
      else if inst == 0xAA
      then done (Ending.on_cpu b (reset_reg Reg8.d 5) w)
      else if inst == 0xAB
      then done (Ending.on_cpu b (reset_reg Reg8.e 5) w)
      else if inst == 0xAC
      then done (Ending.on_cpu b (reset_reg Reg8.h 5) w)
      else if inst == 0xAD
      then done (Ending.on_cpu b (reset_reg Reg8.l 5) w)
      else if inst == 0xAE
      then done (Ending.through_memory b (λ v c. (reset v 5, c)) w)
      else if inst == 0xAF
      then done (Ending.on_cpu b (reset_reg Reg8.a 5) w)
      else if inst == 0xB0
      then done (Ending.on_cpu b (reset_reg Reg8.b 6) w)
      else if inst == 0xB1
      then done (Ending.on_cpu b (reset_reg Reg8.c 6) w)
      else if inst == 0xB2
      then done (Ending.on_cpu b (reset_reg Reg8.d 6) w)
      else if inst == 0xB3
      then done (Ending.on_cpu b (reset_reg Reg8.e 6) w)
      else if inst == 0xB4
      then done (Ending.on_cpu b (reset_reg Reg8.h 6) w)
      else if inst == 0xB5
      then done (Ending.on_cpu b (reset_reg Reg8.l 6) w)
      else if inst == 0xB6
      then done (Ending.through_memory b (λ v c. (reset v 6, c)) w)
      else if inst == 0xB7
      then done (Ending.on_cpu b (reset_reg Reg8.a 6) w)
      else if inst == 0xB8
      then done (Ending.on_cpu b (reset_reg Reg8.b 7) w)
      else if inst == 0xB9
      then done (Ending.on_cpu b (reset_reg Reg8.c 7) w)
      else if inst == 0xBA
      then done (Ending.on_cpu b (reset_reg Reg8.d 7) w)
      else if inst == 0xBB
      then done (Ending.on_cpu b (reset_reg Reg8.e 7) w)
      else if inst == 0xBC
      then done (Ending.on_cpu b (reset_reg Reg8.h 7) w)
      else if inst == 0xBD
      then done (Ending.on_cpu b (reset_reg Reg8.l 7) w)
      else if inst == 0xBE
      then done (Ending.through_memory b (λ v c. (reset v 7, c)) w)
      else if inst == 0xBF
      then done (Ending.on_cpu b (reset_reg Reg8.a 7) w)
      else unknown
