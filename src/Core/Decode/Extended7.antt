-- ===== src/Core/Decode/Extended7.antt =====
-- gameboy/src/cpu/cpu.cpp: the extended opcodes 0xE0 to 0xFF.
use gameboi.Base.{ℕ, ◌==◌, if◌then◌else◌}
use gameboi.Cpu.Registers.{Reg8}
use gameboi.Alu.Bits.{set, set_reg}
use gameboi.Mmu.Bus.{Bus}
use gameboi.Core.Decode.Ending.{Outcome, done, unknown}
use gameboi.Core.Decode.Ending

module _ {W : Type 0} (b : Bus W) where
  unfoldable pub extended_7 : ℕ → W → Outcome W
  extended_7 inst w =
      if inst == 0xE0
      then done (Ending.on_cpu b (set_reg Reg8.b 4) w)
      else if inst == 0xE1
      then done (Ending.on_cpu b (set_reg Reg8.c 4) w)
      else if inst == 0xE2
      then done (Ending.on_cpu b (set_reg Reg8.d 4) w)
      else if inst == 0xE3
      then done (Ending.on_cpu b (set_reg Reg8.e 4) w)
      else if inst == 0xE4
      then done (Ending.on_cpu b (set_reg Reg8.h 4) w)
      else if inst == 0xE5
      then done (Ending.on_cpu b (set_reg Reg8.l 4) w)
      else if inst == 0xE6
      then done (Ending.through_memory b (λ v c. (set v 4, c)) w)
      else if inst == 0xE7
      then done (Ending.on_cpu b (set_reg Reg8.a 4) w)
      else if inst == 0xE8
      then done (Ending.on_cpu b (set_reg Reg8.b 5) w)
      else if inst == 0xE9
      then done (Ending.on_cpu b (set_reg Reg8.c 5) w)
      else if inst == 0xEA
      then done (Ending.on_cpu b (set_reg Reg8.d 5) w)
      else if inst == 0xEB
      then done (Ending.on_cpu b (set_reg Reg8.e 5) w)
      else if inst == 0xEC
      then done (Ending.on_cpu b (set_reg Reg8.h 5) w)
      else if inst == 0xED
      then done (Ending.on_cpu b (set_reg Reg8.l 5) w)
      else if inst == 0xEE
      then done (Ending.through_memory b (λ v c. (set v 5, c)) w)
      else if inst == 0xEF
      then done (Ending.on_cpu b (set_reg Reg8.a 5) w)
      else if inst == 0xF0
      then done (Ending.on_cpu b (set_reg Reg8.b 6) w)
      else if inst == 0xF1
      then done (Ending.on_cpu b (set_reg Reg8.c 6) w)
      else if inst == 0xF2
      then done (Ending.on_cpu b (set_reg Reg8.d 6) w)
      else if inst == 0xF3
      then done (Ending.on_cpu b (set_reg Reg8.e 6) w)
      else if inst == 0xF4
      then done (Ending.on_cpu b (set_reg Reg8.h 6) w)
      else if inst == 0xF5
      then done (Ending.on_cpu b (set_reg Reg8.l 6) w)
      else if inst == 0xF6
      then done (Ending.through_memory b (λ v c. (set v 6, c)) w)
      else if inst == 0xF7
      then done (Ending.on_cpu b (set_reg Reg8.a 6) w)
      else if inst == 0xF8
      then done (Ending.on_cpu b (set_reg Reg8.b 7) w)
      else if inst == 0xF9
      then done (Ending.on_cpu b (set_reg Reg8.c 7) w)
      else if inst == 0xFA
      then done (Ending.on_cpu b (set_reg Reg8.d 7) w)
      else if inst == 0xFB
      then done (Ending.on_cpu b (set_reg Reg8.e 7) w)
      else if inst == 0xFC
      then done (Ending.on_cpu b (set_reg Reg8.h 7) w)
      else if inst == 0xFD
      then done (Ending.on_cpu b (set_reg Reg8.l 7) w)
      else if inst == 0xFE
      then done (Ending.through_memory b (λ v c. (set v 7, c)) w)
      else if inst == 0xFF
      then done (Ending.on_cpu b (set_reg Reg8.a 7) w)
      else unknown
