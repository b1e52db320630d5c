-- ===== src/Core/Decode/Standard5.antt =====
-- gameboy/src/cpu/cpu.cpp: the standard opcodes 0xA0 to 0xBF.
use gameboi.Base.{ℕ, ◌==◌, if◌then◌else◌}
use gameboi.Cpu.Registers.{Reg8, Reg16}
use gameboi.Alu.Arith.{logical_compare, logical_compare_reg}
use gameboi.Alu.Logic.{
  logical_or, logical_or_reg, logical_and, logical_and_reg, logical_xor, logical_xor_reg,
}
use gameboi.Mmu.Bus.{Bus}
use gameboi.Core.Memory.{read_data}
use gameboi.Core.Decode.Ending.{Outcome, done, unknown}
use gameboi.Core.Decode.Ending

module _ {W : Type 0} (b : Bus W) where
  unfoldable pub standard_5 : ℕ → ℕ → W → Outcome W
  standard_5 inst val w =
      if inst == 0xA0
      then done (Ending.on_cpu b (logical_and_reg Reg8.b) w)
      else if inst == 0xA1
      then done (Ending.on_cpu b (logical_and_reg Reg8.c) w)
      else if inst == 0xA2
      then done (Ending.on_cpu b (logical_and_reg Reg8.d) w)
      else if inst == 0xA3
      then done (Ending.on_cpu b (logical_and_reg Reg8.e) w)
      else if inst == 0xA4
      then done (Ending.on_cpu b (logical_and_reg Reg8.h) w)
      else if inst == 0xA5
      then done (Ending.on_cpu b (logical_and_reg Reg8.l) w)
      else if inst == 0xA6
      then done (Ending.on_cpu b (logical_and (read_data b (Ending.address_of b Reg16.hl w) w)) w)
      else if inst == 0xA7
      then done (Ending.on_cpu b (logical_and_reg Reg8.a) w)
      else if inst == 0xA8
      then done (Ending.on_cpu b (logical_xor_reg Reg8.b) w)
      else if inst == 0xA9
      then done (Ending.on_cpu b (logical_xor_reg Reg8.c) w)
      else if inst == 0xAA
      then done (Ending.on_cpu b (logical_xor_reg Reg8.d) w)
      else if inst == 0xAB
      then done (Ending.on_cpu b (logical_xor_reg Reg8.e) w)
      else if inst == 0xAC
      then done (Ending.on_cpu b (logical_xor_reg Reg8.h) w)
      else if inst == 0xAD
      then done (Ending.on_cpu b (logical_xor_reg Reg8.l) w)
      else if inst == 0xAE
      then done (Ending.on_cpu b (logical_xor (read_data b (Ending.address_of b Reg16.hl w) w)) w)
      else if inst == 0xAF
      then done (Ending.on_cpu b (logical_xor_reg Reg8.a) w)
      else if inst == 0xB0
      then done (Ending.on_cpu b (logical_or_reg Reg8.b) w)
      else if inst == 0xB1
      then done (Ending.on_cpu b (logical_or_reg Reg8.c) w)
      else if inst == 0xB2
      then done (Ending.on_cpu b (logical_or_reg Reg8.d) w)
      else if inst == 0xB3
      then done (Ending.on_cpu b (logical_or_reg Reg8.e) w)
      else if inst == 0xB4
      then done (Ending.on_cpu b (logical_or_reg Reg8.h) w)
      else if inst == 0xB5
      then done (Ending.on_cpu b (logical_or_reg Reg8.l) w)
      else if inst == 0xB6
      then done (Ending.on_cpu b (logical_or (read_data b (Ending.address_of b Reg16.hl w) w)) w)
      else if inst == 0xB7
      then done (Ending.on_cpu b (logical_or_reg Reg8.a) w)
      else if inst == 0xB8
      then done (Ending.on_cpu b (logical_compare_reg Reg8.b) w)
      else if inst == 0xB9
      then done (Ending.on_cpu b (logical_compare_reg Reg8.c) w)
      else if inst == 0xBA
      then done (Ending.on_cpu b (logical_compare_reg Reg8.d) w)
      else if inst == 0xBB
      then done (Ending.on_cpu b (logical_compare_reg Reg8.e) w)
      else if inst == 0xBC
      then done (Ending.on_cpu b (logical_compare_reg Reg8.h) w)
      else if inst == 0xBD
      then done (Ending.on_cpu b (logical_compare_reg Reg8.l) w)
      else if inst == 0xBE
      then done
          (Ending.on_cpu b (logical_compare (read_data b (Ending.address_of b Reg16.hl w) w)) w)
      else if inst == 0xBF
      then done (Ending.on_cpu b (logical_compare_reg Reg8.a) w)
      else unknown
