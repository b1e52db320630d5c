-- ===== src/Core/Decode/Standard4.antt =====
-- gameboy/src/cpu/cpu.cpp: the standard opcodes 0x80 to 0x9F.
use gameboi.Base.{ℕ, ◌==◌, if◌then◌else◌}
use gameboi.Cpu.Registers.{Reg8, Reg16}
use gameboi.Alu.Arith.{
  add, add_reg, add_c, add_c_reg, subtract, subtract_reg, subtract_c, subtract_c_reg,
}
use gameboi.Mmu.Bus.{Bus}
use gameboi.Core.Memory.{read_data}
use gameboi.Core.Decode.Ending.{Outcome, done, unknown}
use gameboi.Core.Decode.Ending

module _ {W : Type 0} (b : Bus W) where
  unfoldable pub standard_4 : ℕ → ℕ → W → Outcome W
  standard_4 inst val w =
      if inst == 0x80
      then done (Ending.on_cpu b (add_reg Reg8.b) w)
      else if inst == 0x81
      then done (Ending.on_cpu b (add_reg Reg8.c) w)
      else if inst == 0x82
      then done (Ending.on_cpu b (add_reg Reg8.d) w)
      else if inst == 0x83
      then done (Ending.on_cpu b (add_reg Reg8.e) w)
      else if inst == 0x84
      then done (Ending.on_cpu b (add_reg Reg8.h) w)
      else if inst == 0x85
      then done (Ending.on_cpu b (add_reg Reg8.l) w)
      else if inst == 0x86
      then done (Ending.on_cpu b (add (read_data b (Ending.address_of b Reg16.hl w) w)) w)
      else if inst == 0x87
      then done (Ending.on_cpu b (add_reg Reg8.a) w)
      else if inst == 0x88
      then done (Ending.on_cpu b (add_c_reg Reg8.b) w)
      else if inst == 0x89
      then done (Ending.on_cpu b (add_c_reg Reg8.c) w)
      else if inst == 0x8A
      then done (Ending.on_cpu b (add_c_reg Reg8.d) w)
      else if inst == 0x8B
      then done (Ending.on_cpu b (add_c_reg Reg8.e) w)
      else if inst == 0x8C
      then done (Ending.on_cpu b (add_c_reg Reg8.h) w)
      else if inst == 0x8D
      then done (Ending.on_cpu b (add_c_reg Reg8.l) w)
      else if inst == 0x8E
      then done (Ending.on_cpu b (add_c (read_data b (Ending.address_of b Reg16.hl w) w)) w)
      else if inst == 0x8F
      then done (Ending.on_cpu b (add_c_reg Reg8.a) w)
      else if inst == 0x90
      then done (Ending.on_cpu b (subtract_reg Reg8.b) w)
      else if inst == 0x91
      then done (Ending.on_cpu b (subtract_reg Reg8.c) w)
      else if inst == 0x92
      then done (Ending.on_cpu b (subtract_reg Reg8.d) w)
      else if inst == 0x93
      then done (Ending.on_cpu b (subtract_reg Reg8.e) w)
      else if inst == 0x94
      then done (Ending.on_cpu b (subtract_reg Reg8.h) w)
      else if inst == 0x95
      then done (Ending.on_cpu b (subtract_reg Reg8.l) w)
      else if inst == 0x96
      then done (Ending.on_cpu b (subtract (read_data b (Ending.address_of b Reg16.hl w) w)) w)
      else if inst == 0x97
      then done (Ending.on_cpu b (subtract_reg Reg8.a) w)
      else if inst == 0x98
      then done (Ending.on_cpu b (subtract_c_reg Reg8.b) w)
      else if inst == 0x99
      then done (Ending.on_cpu b (subtract_c_reg Reg8.c) w)
      else if inst == 0x9A
      then done (Ending.on_cpu b (subtract_c_reg Reg8.d) w)
      else if inst == 0x9B
      then done (Ending.on_cpu b (subtract_c_reg Reg8.e) w)
      else if inst == 0x9C
      then done (Ending.on_cpu b (subtract_c_reg Reg8.h) w)
      else if inst == 0x9D
      then done (Ending.on_cpu b (subtract_c_reg Reg8.l) w)
      else if inst == 0x9E
      then done (Ending.on_cpu b (subtract_c (read_data b (Ending.address_of b Reg16.hl w) w)) w)
      else if inst == 0x9F
      then done (Ending.on_cpu b (subtract_c_reg Reg8.a) w)
      else unknown
