-- ===== src/Core/Decode/Standard2.antt =====
-- gameboy/src/cpu/cpu.cpp: the standard opcodes 0x40 to 0x5F.
use gameboi.Base.{ℕ, ◌==◌, if◌then◌else◌}
use gameboi.Cpu.Registers.{Reg8, Reg16, get8}
use gameboi.Mmu.Bus.{Bus}
use gameboi.Core.Decode.Ending.{Outcome, done, unknown}
use gameboi.Core.Decode.Ending

module _ {W : Type 0} (b : Bus W) where
  unfoldable pub standard_2 : ℕ → ℕ → W → Outcome W
  standard_2 inst val w =
      if inst == 0x40
      then done w
      else if inst == 0x41
      then done (Ending.load8 b Reg8.b (get8 Reg8.c (b.cpu w)) w)
      else if inst == 0x42
      then done (Ending.load8 b Reg8.b (get8 Reg8.d (b.cpu w)) w)
      else if inst == 0x43
      then done (Ending.load8 b Reg8.b (get8 Reg8.e (b.cpu w)) w)
      else if inst == 0x44
      then done (Ending.load8 b Reg8.b (get8 Reg8.h (b.cpu w)) w)
      else if inst == 0x45
      then done (Ending.load8 b Reg8.b (get8 Reg8.l (b.cpu w)) w)
      else if inst == 0x46
      then done (Ending.load_from b Reg8.b Reg16.hl w)
      else if inst == 0x47
      then done (Ending.load8 b Reg8.b (get8 Reg8.a (b.cpu w)) w)
      else if inst == 0x48
      then done (Ending.load8 b Reg8.c (get8 Reg8.b (b.cpu w)) w)
      else if inst == 0x49
      then done w
      else if inst == 0x4A
      then done (Ending.load8 b Reg8.c (get8 Reg8.d (b.cpu w)) w)
      else if inst == 0x4B
      then done (Ending.load8 b Reg8.c (get8 Reg8.e (b.cpu w)) w)
      else if inst == 0x4C
      then done (Ending.load8 b Reg8.c (get8 Reg8.h (b.cpu w)) w)
      else if inst == 0x4D
      then done (Ending.load8 b Reg8.c (get8 Reg8.l (b.cpu w)) w)
      else if inst == 0x4E
      then done (Ending.load_from b Reg8.c Reg16.hl w)
      else if inst == 0x4F
      then done (Ending.load8 b Reg8.c (get8 Reg8.a (b.cpu w)) w)
      else if inst == 0x50
      then done (Ending.load8 b Reg8.d (get8 Reg8.b (b.cpu w)) w)
      else if inst == 0x51
      then done (Ending.load8 b Reg8.d (get8 Reg8.c (b.cpu w)) w)
      else if inst == 0x52
      then done w
      else if inst == 0x53
      then done (Ending.load8 b Reg8.d (get8 Reg8.e (b.cpu w)) w)
      else if inst == 0x54
      then done (Ending.load8 b Reg8.d (get8 Reg8.h (b.cpu w)) w)
      else if inst == 0x55
      then done (Ending.load8 b Reg8.d (get8 Reg8.l (b.cpu w)) w)
      else if inst == 0x56
      then done (Ending.load_from b Reg8.d Reg16.hl w)
      else if inst == 0x57
      then done (Ending.load8 b Reg8.d (get8 Reg8.a (b.cpu w)) w)
      else if inst == 0x58
      then done (Ending.load8 b Reg8.e (get8 Reg8.b (b.cpu w)) w)
      else if inst == 0x59
      then done (Ending.load8 b Reg8.e (get8 Reg8.c (b.cpu w)) w)
      else if inst == 0x5A
      then done (Ending.load8 b Reg8.e (get8 Reg8.d (b.cpu w)) w)
      else if inst == 0x5B
      then done w
      else if inst == 0x5C
      then done (Ending.load8 b Reg8.e (get8 Reg8.h (b.cpu w)) w)
      else if inst == 0x5D
      then done (Ending.load8 b Reg8.e (get8 Reg8.l (b.cpu w)) w)
      else if inst == 0x5E
      then done (Ending.load_from b Reg8.e Reg16.hl w)
      else if inst == 0x5F
      then done (Ending.load8 b Reg8.e (get8 Reg8.a (b.cpu w)) w)
      else unknown
