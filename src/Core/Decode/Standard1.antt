-- ===== src/Core/Decode/Standard1.antt =====
-- gameboy/src/cpu/cpu.cpp: the standard opcodes 0x20 to 0x3F.
use gameboi.Base.{ℕ, ◌==◌, not, if◌then◌else◌, u8}
use gameboi.Register16.{increment, decrement}
use gameboi.Cpu.Flag
use gameboi.Cpu.State.{set_flag, reset_flag, flip_flag, test_flag}
use gameboi.Cpu.Registers.{Reg8, Reg16}
use gameboi.Alu.Arith.{increment_reg, decrement_reg}
use gameboi.Alu.Arith.{increment as increment_byte, decrement as decrement_byte}
use gameboi.Alu.Logic.{complement}
use gameboi.Alu.Adjust.{decimal_adjust}
use gameboi.Mmu.Bus.{Bus}
use gameboi.Core.Memory.{store8}
use gameboi.Core.Control.{jump_relative}
use gameboi.Core.Decode.Ending.{Outcome, done, unknown}
use gameboi.Core.Decode.Ending

module _ {W : Type 0} (b : Bus W) where
  unfoldable pub standard_1 : ℕ → ℕ → W → Outcome W
  standard_1 inst val w =
      if inst == 0x20
      then Ending.branch (not (test_flag Flag.zero (b.cpu w))) w
          (Ending.on_cpu b (jump_relative (u8 val)) w)
      else if inst == 0x21
      then done (Ending.load16 b Reg16.hl val w)
      else if inst == 0x22
      then done (Ending.store_then b increment Reg8.a w)
      else if inst == 0x23
      then done (Ending.increment16 b Reg16.hl w)
      else if inst == 0x24
      then done (Ending.on_cpu b (increment_reg Reg8.h) w)
      else if inst == 0x25
      then done (Ending.on_cpu b (decrement_reg Reg8.h) w)
      else if inst == 0x26
      then done (Ending.load8 b Reg8.h (u8 val) w)
      else if inst == 0x27
      then done (Ending.on_cpu b decimal_adjust w)
      else if inst == 0x28
      then Ending.branch (test_flag Flag.zero (b.cpu w)) w
          (Ending.on_cpu b (jump_relative (u8 val)) w)
      else if inst == 0x29
      then done (Ending.add_pair b Reg16.hl Reg16.hl w)
      else if inst == 0x2A
      then done (Ending.load_then b increment Reg8.a w)
      else if inst == 0x2B
      then done (Ending.decrement16 b Reg16.hl w)
      else if inst == 0x2C
      then done (Ending.on_cpu b (increment_reg Reg8.l) w)
      else if inst == 0x2D
      then done (Ending.on_cpu b (decrement_reg Reg8.l) w)
      else if inst == 0x2E
      then done (Ending.load8 b Reg8.l (u8 val) w)
      else if inst == 0x2F
      then done (Ending.on_cpu b complement w)
      else if inst == 0x30
      then Ending.branch (not (test_flag Flag.carry (b.cpu w))) w
          (Ending.on_cpu b (jump_relative (u8 val)) w)
      else if inst == 0x31
      then done (Ending.load16 b Reg16.sp val w)
      else if inst == 0x32
      then done (Ending.store_then b decrement Reg8.a w)
      else if inst == 0x33
      then done (Ending.increment16 b Reg16.sp w)
      else if inst == 0x34
      then done (Ending.through_memory b increment_byte w)
      else if inst == 0x35
      then done (Ending.through_memory b decrement_byte w)
      else if inst == 0x36
      then done (store8 b (Ending.address_of b Reg16.hl w) (u8 val) w)
      else if inst == 0x37
      then done (Ending.on_cpu b (λ c. set_flag Flag.carry (reset_flag 0x60 c)) w)
      else if inst == 0x38
      then Ending.branch (test_flag Flag.carry (b.cpu w)) w
          (Ending.on_cpu b (jump_relative (u8 val)) w)
      else if inst == 0x39
      then done (Ending.add_pair b Reg16.hl Reg16.sp w)
      else if inst == 0x3A
      then done (Ending.load_then b decrement Reg8.a w)
      else if inst == 0x3B
      then done (Ending.decrement16 b Reg16.sp w)
      else if inst == 0x3C
      then done (Ending.on_cpu b (increment_reg Reg8.a) w)
      else if inst == 0x3D
      then done (Ending.on_cpu b (decrement_reg Reg8.a) w)
      else if inst == 0x3E
      then done (Ending.load8 b Reg8.a (u8 val) w)
      else if inst == 0x3F
      then done (Ending.on_cpu b (λ c. flip_flag Flag.carry (reset_flag 0x60 c)) w)
      else unknown
