-- ===== src/Core/Decode/Standard0.antt =====
-- gameboy/src/cpu/cpu.cpp: the standard opcodes 0x00 to 0x1F.
use gameboi.Base.{ℕ, ◌==◌, if◌then◌else◌, u8}
use gameboi.Cpu.Registers.{Reg8, Reg16, get16}
use gameboi.Alu.Arith.{increment_reg, decrement_reg}
use gameboi.Alu.Rotate.{rotate_left_acc, rotate_right_acc, rotate_left_c_acc, rotate_right_c_acc}
use gameboi.Mmu.Bus.{Bus}
use gameboi.Core.Memory.{store16}
use gameboi.Core.Control.{stop, jump_relative}
use gameboi.Core.Decode.Ending.{Outcome, done, unknown}
use gameboi.Core.Decode.Ending

module _ {W : Type 0} (b : Bus W) where
  unfoldable pub standard_0 : ℕ → ℕ → W → Outcome W
  standard_0 inst val w =
      if inst == 0x00
      then done w
      else if inst == 0x01
      then done (Ending.load16 b Reg16.bc val w)
      else if inst == 0x02
      then done (Ending.store_at b Reg16.bc Reg8.a w)
      else if inst == 0x03
      then done (Ending.increment16 b Reg16.bc w)
      else if inst == 0x04
      then done (Ending.on_cpu b (increment_reg Reg8.b) w)
      else if inst == 0x05
      then done (Ending.on_cpu b (decrement_reg Reg8.b) w)
      else if inst == 0x06
      then done (Ending.load8 b Reg8.b (u8 val) w)
      else if inst == 0x07
      then done (Ending.on_cpu b rotate_left_c_acc w)
      else if inst == 0x08
      then done (store16 b val (get16 Reg16.sp (b.cpu w)) w)
      else if inst == 0x09
      then done (Ending.add_pair b Reg16.hl Reg16.bc w)
      else if inst == 0x0A
      then done (Ending.load_from b Reg8.a Reg16.bc w)
      else if inst == 0x0B
      then done (Ending.decrement16 b Reg16.bc w)
      else if inst == 0x0C
      then done (Ending.on_cpu b (increment_reg Reg8.c) w)
      else if inst == 0x0D
      then done (Ending.on_cpu b (decrement_reg Reg8.c) w)
      else if inst == 0x0E
      then done (Ending.load8 b Reg8.c (u8 val) w)
      else if inst == 0x0F
      then done (Ending.on_cpu b rotate_right_c_acc w)
      else if inst == 0x10
      then done (Ending.on_cpu b stop w)
      else if inst == 0x11
      then done (Ending.load16 b Reg16.de val w)
      else if inst == 0x12
      then done (Ending.store_at b Reg16.de Reg8.a w)
      else if inst == 0x13
      then done (Ending.increment16 b Reg16.de w)
      else if inst == 0x14
      then done (Ending.on_cpu b (increment_reg Reg8.d) w)
      else if inst == 0x15
      then done (Ending.on_cpu b (decrement_reg Reg8.d) w)
      else if inst == 0x16
      then done (Ending.load8 b Reg8.d (u8 val) w)
      else if inst == 0x17
      then done (Ending.on_cpu b rotate_left_acc w)
      else if inst == 0x18
      then done (Ending.on_cpu b (jump_relative (u8 val)) w)
      else if inst == 0x19
      then done (Ending.add_pair b Reg16.hl Reg16.de w)
      else if inst == 0x1A
      then done (Ending.load_from b Reg8.a Reg16.de w)
      else if inst == 0x1B
      then done (Ending.decrement16 b Reg16.de w)
      else if inst == 0x1C
      then done (Ending.on_cpu b (increment_reg Reg8.e) w)
      else if inst == 0x1D
      then done (Ending.on_cpu b (decrement_reg Reg8.e) w)
      else if inst == 0x1E
      then done (Ending.load8 b Reg8.e (u8 val) w)
      else if inst == 0x1F
      then done (Ending.on_cpu b rotate_right_acc w)
      else unknown
