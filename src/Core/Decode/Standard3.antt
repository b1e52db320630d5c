-- ===== src/Core/Decode/Standard3.antt =====
-- gameboy/src/cpu/cpu.cpp: the standard opcodes 0x60 to 0x7F.
use gameboi.Base.{ℕ, ◌==◌, if◌then◌else◌}
use gameboi.Cpu.Registers.{Reg8, Reg16, get8}
use gameboi.Mmu.Bus.{Bus}
use gameboi.Core.Control.{halt}
use gameboi.Core.Decode.Ending.{Outcome, done, unknown}
use gameboi.Core.Decode.Ending

module _ {W : Type 0} (b : Bus W) where
  unfoldable pub standard_3 : ℕ → ℕ → W → Outcome W
  standard_3 inst val w =
      if inst == 0x60
      then done (Ending.load8 b Reg8.h (get8 Reg8.b (b.cpu w)) w)
      else if inst == 0x61
      then done (Ending.load8 b Reg8.h (get8 Reg8.c (b.cpu w)) w)
      else if inst == 0x62
      then done (Ending.load8 b Reg8.h (get8 Reg8.d (b.cpu w)) w)
      else if inst == 0x63
      then done (Ending.load8 b Reg8.h (get8 Reg8.e (b.cpu w)) w)
      else if inst == 0x64
      then done w
      else if inst == 0x65
      then done (Ending.load8 b Reg8.h (get8 Reg8.l (b.cpu w)) w)
      else if inst == 0x66
      then done (Ending.load_from b Reg8.h Reg16.hl w)
      else if inst == 0x67
      then done (Ending.load8 b Reg8.h (get8 Reg8.a (b.cpu w)) w)
      else if inst == 0x68
      then done (Ending.load8 b Reg8.l (get8 Reg8.b (b.cpu w)) w)
      else if inst == 0x69
      then done (Ending.load8 b Reg8.l (get8 Reg8.c (b.cpu w)) w)
      else if inst == 0x6A
      then done (Ending.load8 b Reg8.l (get8 Reg8.d (b.cpu w)) w)
      else if inst == 0x6B
      then done (Ending.load8 b Reg8.l (get8 Reg8.e (b.cpu w)) w)
      else if inst == 0x6C
      then done (Ending.load8 b Reg8.l (get8 Reg8.h (b.cpu w)) w)
      else if inst == 0x6D
      then done w
      else if inst == 0x6E
      then done (Ending.load_from b Reg8.l Reg16.hl w)
      else if inst == 0x6F
      then done (Ending.load8 b Reg8.l (get8 Reg8.a (b.cpu w)) w)
      else if inst == 0x70
      then done (Ending.store_at b Reg16.hl Reg8.b w)
      else if inst == 0x71
      then done (Ending.store_at b Reg16.hl Reg8.c w)
      else if inst == 0x72
      then done (Ending.store_at b Reg16.hl Reg8.d w)
      else if inst == 0x73
      then done (Ending.store_at b Reg16.hl Reg8.e w)
      else if inst == 0x74
      then done (Ending.store_at b Reg16.hl Reg8.h w)
      else if inst == 0x75
      then done (Ending.store_at b Reg16.hl Reg8.l w)
      else if inst == 0x76
      then done (Ending.on_cpu b halt w)
      else if inst == 0x77
      then done (Ending.store_at b Reg16.hl Reg8.a w)
      else if inst == 0x78
      then done (Ending.load8 b Reg8.a (get8 Reg8.b (b.cpu w)) w)
      else if inst == 0x79
      then done (Ending.load8 b Reg8.a (get8 Reg8.c (b.cpu w)) w)
      else if inst == 0x7A
      then done (Ending.load8 b Reg8.a (get8 Reg8.d (b.cpu w)) w)
      else if inst == 0x7B
      then done (Ending.load8 b Reg8.a (get8 Reg8.e (b.cpu w)) w)
      else if inst == 0x7C
      then done (Ending.load8 b Reg8.a (get8 Reg8.h (b.cpu w)) w)
      else if inst == 0x7D
      then done (Ending.load8 b Reg8.a (get8 Reg8.l (b.cpu w)) w)
      else if inst == 0x7E
      then done (Ending.load_from b Reg8.a Reg16.hl w)
      else if inst == 0x7F
      then done w
      else unknown
