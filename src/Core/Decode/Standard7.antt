-- ===== src/Core/Decode/Standard7.antt =====
-- gameboy/src/cpu/cpu.cpp: the standard opcodes 0xE0 to 0xFF.
use gameboi.Base.{ℕ, ◌+◌, ◌==◌, if◌then◌else◌, bit_and, u8, u16}
use gameboi.Cpu.State.{set_low}
use gameboi.Cpu.Registers.{Reg8, Reg16, get8}
use gameboi.Alu.Arith.{logical_compare}
use gameboi.Alu.Logic.{logical_or, logical_and, logical_xor}
use gameboi.Alu.Adjust.{add_to_stack_pointer}
use gameboi.Mmu.Bus.{Bus}
use gameboi.Core.Memory.{read_data, push, pop, store8}
use gameboi.Core.Control.{jump_register, load_hlsp, rst}
use gameboi.Core.Decode.Ending.{Outcome, done, unknown}
use gameboi.Core.Decode.Ending

module _ {W : Type 0} (b : Bus W) where
  unfoldable pub standard_7 : ℕ → ℕ → W → Outcome W
  standard_7 inst val w =
      if inst == 0xE0
      then done (store8 b (0xFF00 + u8 val) (get8 Reg8.a (b.cpu w)) w)
      else if inst == 0xE1
      then done (pop b Reg16.hl w)
      else if inst == 0xE2
      then done (store8 b (u16 (get8 Reg8.c (b.cpu w) + 0xFF00)) (get8 Reg8.a (b.cpu w)) w)
      else if inst == 0xE5
      then done (push b Reg16.hl w)
      else if inst == 0xE6
      then done (Ending.on_cpu b (logical_and (u8 val)) w)
      else if inst == 0xE7
      then done (rst b 0x20 w)
      else if inst == 0xE8
      then done (Ending.on_cpu b (add_to_stack_pointer (u8 val)) w)
      else if inst == 0xE9
      then done (Ending.on_cpu b (λ c. jump_register c.h_l c) w)
      else if inst == 0xEA
      then done (store8 b val (get8 Reg8.a (b.cpu w)) w)
      else if inst == 0xEE
      then done (Ending.on_cpu b (logical_xor (u8 val)) w)
      else if inst == 0xEF
      then done (rst b 0x28 w)
      else if inst == 0xF0
      then done (Ending.load8 b Reg8.a (read_data b (0xFF00 + u8 val) w) w)
      else if inst == 0xF1
      then done (Ending.on_cpu b (λ c. set_low (bit_and c.a_f.low 0xF0) c) (pop b Reg16.af w))
      else if inst == 0xF2
      then done (Ending.load8 b Reg8.a (read_data b (u16 (get8 Reg8.c (b.cpu w) + 0xFF00)) w) w)
      else if inst == 0xF3
      then done (Ending.on_cpu b Ending.disable_later w)
      else if inst == 0xF5
      then done (push b Reg16.af w)
      else if inst == 0xF6
      then done (Ending.on_cpu b (logical_or (u8 val)) w)
      else if inst == 0xF7
      then done (rst b 0x30 w)
      else if inst == 0xF8
      then done (Ending.on_cpu b (load_hlsp (u8 val)) w)
      else if inst == 0xF9
      then done (Ending.on_cpu b (λ c. record c { stack_pointer = c.h_l }) w)
      else if inst == 0xFA
      then done (Ending.load8 b Reg8.a (read_data b val w) w)
      else if inst == 0xFB
      then done (Ending.on_cpu b Ending.enable_later w)
      else if inst == 0xFE
      then done (Ending.on_cpu b (logical_compare (u8 val)) w)
      else if inst == 0xFF
      then done (rst b 0x38 w)
      else unknown
