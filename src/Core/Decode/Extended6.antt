-- ===== src/Core/Decode/Extended6.antt =====
-- gameboy/src/cpu/cpu.cpp: the extended opcodes 0xC0 to 0xDF.
use gameboi.Base.{ℕ, ◌==◌, if◌then◌else◌}
use gameboi.Cpu.Registers.{Reg8}
use gameboi.Alu.Bits.{set, set_reg}
use gameboi.Mmu.Bus.{Bus}
use gameboi.Core.Decode.Ending.{Outcome, done, unknown}
use gameboi.Core.Decode.Ending

module _ {W : Type 0} (b : Bus W) where
  unfoldable pub extended_6 : ℕ → W → Outcome W
  extended_6 inst w =
      if inst == 0xC0
      then done (Ending.on_cpu b (set_reg Reg8.b 0) w)
      else if inst == 0xC1
      then done (Ending.on_cpu b (set_reg Reg8.c 0) w)
      else if inst == 0xC2
      then done (Ending.on_cpu b (set_reg Reg8.d 0) w)
      else if inst == 0xC3
      then done (Ending.on_cpu b (set_reg Reg8.e 0) w)
      else if inst == 0xC4
      then done (Ending.on_cpu b (set_reg Reg8.h 0) w)
      else if inst == 0xC5
      then done (Ending.on_cpu b (set_reg Reg8.l 0) w)
      else if inst == 0xC6
      then done (Ending.through_memory b (λ v c. (set v 0, c)) w)
      else if inst == 0xC7
      then done (Ending.on_cpu b (set_reg Reg8.a 0) w)
      else if inst == 0xC8
      then done (Ending.on_cpu b (set_reg Reg8.b 1) w)
      else if inst == 0xC9
      then done (Ending.on_cpu b (set_reg Reg8.c 1) w)
      else if inst == 0xCA
      then done (Ending.on_cpu b (set_reg Reg8.d 1) w)
      else if inst == 0xCB
      then done (Ending.on_cpu b (set_reg Reg8.e 1) w)
      else if inst == 0xCC
      then done (Ending.on_cpu b (set_reg Reg8.h 1) w)
      else if inst == 0xCD
      then done (Ending.on_cpu b (set_reg Reg8.l 1) w)
      else if inst == 0xCE
      then done (Ending.through_memory b (λ v c. (set v 1, c)) w)
      else if inst == 0xCF
      then done (Ending.on_cpu b (set_reg Reg8.a 1) w)
      else if inst == 0xD0
      then done (Ending.on_cpu b (set_reg Reg8.b 2) w)
      else if inst == 0xD1
      then done (Ending.on_cpu b (set_reg Reg8.c 2) w)
      else if inst == 0xD2
      then done (Ending.on_cpu b (set_reg Reg8.d 2) w)
      else if inst == 0xD3
      then done (Ending.on_cpu b (set_reg Reg8.e 2) w)
      else if inst == 0xD4
      then done (Ending.on_cpu b (set_reg Reg8.h 2) w)
      else if inst == 0xD5
      then done (Ending.on_cpu b (set_reg Reg8.l 2) w)
      else if inst == 0xD6
      then done (Ending.through_memory b (λ v c. (set v 2, c)) w)
      else if inst == 0xD7
      then done (Ending.on_cpu b (set_reg Reg8.a 2) w)
      else if inst == 0xD8
      then done (Ending.on_cpu b (set_reg Reg8.b 3) w)
      else if inst == 0xD9
      then done (Ending.on_cpu b (set_reg Reg8.c 3) w)
      else if inst == 0xDA
      then done (Ending.on_cpu b (set_reg Reg8.d 3) w)
      else if inst == 0xDB
      then done (Ending.on_cpu b (set_reg Reg8.e 3) w)
      else if inst == 0xDC
      then done (Ending.on_cpu b (set_reg Reg8.h 3) w)
      else if inst == 0xDD
      then done (Ending.on_cpu b (set_reg Reg8.l 3) w)
      else if inst == 0xDE
      then done (Ending.through_memory b (λ v c. (set v 3, c)) w)
      else if inst == 0xDF
      then done (Ending.on_cpu b (set_reg Reg8.a 3) w)
      else unknown
