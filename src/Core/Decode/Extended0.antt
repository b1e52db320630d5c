-- ===== src/Core/Decode/Extended0.antt =====
-- gameboy/src/cpu/cpu.cpp: the extended opcodes 0x00 to 0x1F.
use gameboi.Base.{ℕ, ◌==◌, if◌then◌else◌}
use gameboi.Cpu.Registers.{Reg8}
use gameboi.Alu.Rotate.{
  rotate_left, rotate_right, rotate_left_c, rotate_right_c, rotate_left_reg, rotate_right_reg,
  rotate_left_c_reg, rotate_right_c_reg,
}
use gameboi.Mmu.Bus.{Bus}
use gameboi.Core.Decode.Ending.{Outcome, done, unknown}
use gameboi.Core.Decode.Ending

module _ {W : Type 0} (b : Bus W) where
  unfoldable pub extended_0 : ℕ → W → Outcome W
  extended_0 inst w =
      if inst == 0x00
      then done (Ending.on_cpu b (rotate_left_c_reg Reg8.b) w)
      else if inst == 0x01
      then done (Ending.on_cpu b (rotate_left_c_reg Reg8.c) w)
      else if inst == 0x02
      then done (Ending.on_cpu b (rotate_left_c_reg Reg8.d) w)
      else if inst == 0x03
      then done (Ending.on_cpu b (rotate_left_c_reg Reg8.e) w)
      else if inst == 0x04
      then done (Ending.on_cpu b (rotate_left_c_reg Reg8.h) w)
      else if inst == 0x05
      then done (Ending.on_cpu b (rotate_left_c_reg Reg8.l) w)
      else if inst == 0x06
      then done (Ending.through_memory b rotate_left_c w)
      else if inst == 0x07
      then done (Ending.on_cpu b (rotate_left_c_reg Reg8.a) w)
      else if inst == 0x08
      then done (Ending.on_cpu b (rotate_right_c_reg Reg8.b) w)
      else if inst == 0x09
      then done (Ending.on_cpu b (rotate_right_c_reg Reg8.c) w)
      else if inst == 0x0A
      then done (Ending.on_cpu b (rotate_right_c_reg Reg8.d) w)
      else if inst == 0x0B
      then done (Ending.on_cpu b (rotate_right_c_reg Reg8.e) w)
      else if inst == 0x0C
      then done (Ending.on_cpu b (rotate_right_c_reg Reg8.h) w)
      else if inst == 0x0D
      then done (Ending.on_cpu b (rotate_right_c_reg Reg8.l) w)
      else if inst == 0x0E
      then done (Ending.through_memory b rotate_right_c w)
      else if inst == 0x0F
      then done (Ending.on_cpu b (rotate_right_c_reg Reg8.a) w)
      else if inst == 0x10
      then done (Ending.on_cpu b (rotate_left_reg Reg8.b) w)
      else if inst == 0x11
      then done (Ending.on_cpu b (rotate_left_reg Reg8.c) w)
      else if inst == 0x12
      then done (Ending.on_cpu b (rotate_left_reg Reg8.d) w)
      else if inst == 0x13
      then done (Ending.on_cpu b (rotate_left_reg Reg8.e) w)
      else if inst == 0x14
      then done (Ending.on_cpu b (rotate_left_reg Reg8.h) w)
      else if inst == 0x15
      then done (Ending.on_cpu b (rotate_left_reg Reg8.l) w)
      else if inst == 0x16
      then done (Ending.through_memory b rotate_left w)
      else if inst == 0x17
      then done (Ending.on_cpu b (rotate_left_reg Reg8.a) w)
      else if inst == 0x18
      then done (Ending.on_cpu b (rotate_right_reg Reg8.b) w)
      else if inst == 0x19
      then done (Ending.on_cpu b (rotate_right_reg Reg8.c) w)
      else if inst == 0x1A
      then done (Ending.on_cpu b (rotate_right_reg Reg8.d) w)
      else if inst == 0x1B
      then done (Ending.on_cpu b (rotate_right_reg Reg8.e) w)
      else if inst == 0x1C
      then done (Ending.on_cpu b (rotate_right_reg Reg8.h) w)
      else if inst == 0x1D
      then done (Ending.on_cpu b (rotate_right_reg Reg8.l) w)
      else if inst == 0x1E
      then done (Ending.through_memory b rotate_right w)
      else if inst == 0x1F
      then done (Ending.on_cpu b (rotate_right_reg Reg8.a) w)
      else unknown
