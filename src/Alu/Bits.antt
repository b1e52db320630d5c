-- ===== src/Alu/Bits.antt =====
-- gameboy/src/cpu/alu.cpp: testing, setting and resetting one bit.
pub mod Laws
use gameboi.Base.{ℕ, not, u8}
use gameboi.Util.Bit
use gameboi.Cpu.Flag
use gameboi.Cpu.State.{Cpu, set_flag, reset_flag, set_flag_if}
use gameboi.Cpu.Registers.{Reg8, get8, put8}

-- negative | zero
unfoldable pub test : ℕ → ℕ → Cpu → Cpu
test val bit c =
    let c1 = reset_flag 0xC0 (set_flag Flag.half_carry c) in
    set_flag_if (not (Bit.test val bit)) Flag.zero c1

unfoldable pub test_reg : Reg8 → ℕ → Cpu → Cpu
test_reg r bit c = test (get8 r c) bit c

unfoldable pub set : ℕ → ℕ → ℕ
set val bit = u8 (Bit.set val bit)

unfoldable pub set_reg : Reg8 → ℕ → Cpu → Cpu
set_reg r bit c = put8 r (set (get8 r c) bit) c

unfoldable pub reset : ℕ → ℕ → ℕ
reset val bit = u8 (Bit.reset val bit)

unfoldable pub reset_reg : Reg8 → ℕ → Cpu → Cpu
reset_reg r bit c = put8 r (reset (get8 r c) bit) c
