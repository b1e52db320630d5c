-- ===== src/Core/Decode/Extended1.antt =====
-- gameboy/src/cpu/cpu.cpp: the extended opcodes 0x20 to 0x3F.
use gameboi.Base.{ℕ, ◌==◌, if◌then◌else◌}
use gameboi.Cpu.Registers.{Reg8}
use gameboi.Alu.Logic.{swap, swap_reg}
use gameboi.Alu.Rotate.{
  shift_left, shift_right_preserve, shift_right_reset, shift_left_reg, shift_right_preserve_reg,
  shift_right_reset_reg,
}
use gameboi.Mmu.Bus.{Bus}
use gameboi.Core.Decode.Ending.{Outcome, done, unknown}
use gameboi.Core.Decode.Ending

module _ {W : Type 0} (b : Bus W) where
  unfoldable pub extended_1 : ℕ → W → Outcome W
  extended_1 inst w =
      if inst == 0x20
      then done (Ending.on_cpu b (shift_left_reg Reg8.b) w)
      else if inst == 0x21
      then done (Ending.on_cpu b (shift_left_reg Reg8.c) w)
      else if inst == 0x22
      then done (Ending.on_cpu b (shift_left_reg Reg8.d) w)
      else if inst == 0x23
      then done (Ending.on_cpu b (shift_left_reg Reg8.e) w)
      else if inst == 0x24
      then done (Ending.on_cpu b (shift_left_reg Reg8.h) w)
      else if inst == 0x25
      then done (Ending.on_cpu b (shift_left_reg Reg8.l) w)
      else if inst == 0x26
      then done (Ending.through_memory b shift_left w)
      else if inst == 0x27
      then done (Ending.on_cpu b (shift_left_reg Reg8.a) w)
      else if inst == 0x28
      then done (Ending.on_cpu b (shift_right_preserve_reg Reg8.b) w)
      else if inst == 0x29
      then done (Ending.on_cpu b (shift_right_preserve_reg Reg8.c) w)
      else if inst == 0x2A
      then done (Ending.on_cpu b (shift_right_preserve_reg Reg8.d) w)
      else if inst == 0x2B
      then done (Ending.on_cpu b (shift_right_preserve_reg Reg8.e) w)
      else if inst == 0x2C
      then done (Ending.on_cpu b (shift_right_preserve_reg Reg8.h) w)
      else if inst == 0x2D
      then done (Ending.on_cpu b (shift_right_preserve_reg Reg8.l) w)
      else if inst == 0x2E
      then done (Ending.through_memory b shift_right_preserve w)
      else if inst == 0x2F
      then done (Ending.on_cpu b (shift_right_preserve_reg Reg8.a) w)
      else if inst == 0x30
      then done (Ending.on_cpu b (swap_reg Reg8.b) w)
      else if inst == 0x31
      then done (Ending.on_cpu b (swap_reg Reg8.c) w)
      else if inst == 0x32
      then done (Ending.on_cpu b (swap_reg Reg8.d) w)
      else if inst == 0x33
      then done (Ending.on_cpu b (swap_reg Reg8.e) w)
      else if inst == 0x34
      then done (Ending.on_cpu b (swap_reg Reg8.h) w)
      else if inst == 0x35
      then done (Ending.on_cpu b (swap_reg Reg8.l) w)
      else if inst == 0x36
      then done (Ending.through_memory b swap w)
      else if inst == 0x37
      then done (Ending.on_cpu b (swap_reg Reg8.a) w)
      else if inst == 0x38
      then done (Ending.on_cpu b (shift_right_reset_reg Reg8.b) w)
      else if inst == 0x39
      then done (Ending.on_cpu b (shift_right_reset_reg Reg8.c) w)
      else if inst == 0x3A
      then done (Ending.on_cpu b (shift_right_reset_reg Reg8.d) w)
      else if inst == 0x3B
      then done (Ending.on_cpu b (shift_right_reset_reg Reg8.e) w)
      else if inst == 0x3C
      then done (Ending.on_cpu b (shift_right_reset_reg Reg8.h) w)
      else if inst == 0x3D
      then done (Ending.on_cpu b (shift_right_reset_reg Reg8.l) w)
      else if inst == 0x3E
      then done (Ending.through_memory b shift_right_reset w)
      else if inst == 0x3F
      then done (Ending.on_cpu b (shift_right_reset_reg Reg8.a) w)
      else unknown
