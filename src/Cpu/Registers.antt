-- ===== src/Cpu/Registers.antt =====
-- The references that the code passes: a byte register (`a_f_.high()`, `b_c_.low()`, ...) or a
-- pair (`h_l_`, `stack_pointer_`, ...), read and written through the processor's state.
use gameboi.Base.{ℕ}
use gameboi.Register16.{Register16}
use gameboi.Cpu.State.{Cpu}

pub data Reg8 : Type 0 where
  a b c d e h l : Reg8

abbrev pub get8 : Reg8 → Cpu → ℕ
get8 a cpu = cpu.a_f.high
get8 b cpu = cpu.b_c.high
get8 c cpu = cpu.b_c.low
get8 d cpu = cpu.d_e.high
get8 e cpu = cpu.d_e.low
get8 h cpu = cpu.h_l.high
get8 l cpu = cpu.h_l.low

abbrev pub put8 : Reg8 → ℕ → Cpu → Cpu
put8 a v cpu = record cpu { a_f = record { high = v; low = cpu.a_f.low } }
put8 b v cpu = record cpu { b_c = record { high = v; low = cpu.b_c.low } }
put8 c v cpu = record cpu { b_c = record { high = cpu.b_c.high; low = v } }
put8 d v cpu = record cpu { d_e = record { high = v; low = cpu.d_e.low } }
put8 e v cpu = record cpu { d_e = record { high = cpu.d_e.high; low = v } }
put8 h v cpu = record cpu { h_l = record { high = v; low = cpu.h_l.low } }
put8 l v cpu = record cpu { h_l = record { high = cpu.h_l.high; low = v } }

pub data Reg16 : Type 0 where
  af bc de hl sp pc : Reg16

abbrev pub get16 : Reg16 → Cpu → Register16
get16 af cpu = cpu.a_f
get16 bc cpu = cpu.b_c
get16 de cpu = cpu.d_e
get16 hl cpu = cpu.h_l
get16 sp cpu = cpu.stack_pointer
get16 pc cpu = cpu.program_counter

abbrev pub put16 : Reg16 → Register16 → Cpu → Cpu
put16 af r cpu = record cpu { a_f = r }
put16 bc r cpu = record cpu { b_c = r }
put16 de r cpu = record cpu { d_e = r }
put16 hl r cpu = record cpu { h_l = r }
put16 sp r cpu = record cpu { stack_pointer = r }
put16 pc r cpu = record cpu { program_counter = r }

-- The `register8&` overloads: copy the byte, run the `uint8_t&` overload on it, assign it back.
abbrev pub through : Reg8 → (ℕ → Cpu → ℕ × Cpu) → Cpu → Cpu
through r op cpu = let (value, after) = op (get8 r cpu) cpu in put8 r value after
