-- ===== src/Alu/Logic.antt =====
-- gameboy/src/cpu/alu.cpp: or, and, xor, complement and swap.
pub mod Laws
use gameboi.Base.{ℕ, ◌==◌, bit_or, shl, shr, u8, if◌then◌else◌}
use gameboi.Register8
use gameboi.Cpu.Flag
use gameboi.Cpu.State.{Cpu, acc, set_acc, set_flag, reset_flag, set_flag_if}
use gameboi.Cpu.Registers.{Reg8, get8, through}

unfoldable pub logical_or : ℕ → Cpu → Cpu
logical_or val c =
    let c1 = set_acc (Register8.or_assign (acc c) val) c in
    let c2 = reset_flag Flag.all c1 in set_flag_if (acc c2 == 0) Flag.zero c2

unfoldable pub logical_or_reg : Reg8 → Cpu → Cpu
logical_or_reg r c = logical_or (get8 r c) c

unfoldable pub logical_and : ℕ → Cpu → Cpu
logical_and val c =
    let c1 = set_acc (Register8.and_assign (acc c) val) c in
    let c2 = set_flag Flag.half_carry (reset_flag Flag.all c1) in
    set_flag_if (acc c2 == 0) Flag.zero c2

unfoldable pub logical_and_reg : Reg8 → Cpu → Cpu
logical_and_reg r c = logical_and (get8 r c) c

unfoldable pub logical_xor : ℕ → Cpu → Cpu
logical_xor val c =
    let c1 = set_acc (Register8.xor_assign (acc c) val) c in
    let c2 = reset_flag Flag.all c1 in set_flag_if (acc c2 == 0) Flag.zero c2

unfoldable pub logical_xor_reg : Reg8 → Cpu → Cpu
logical_xor_reg r c = logical_xor (get8 r c) c

-- negative | half_carry
unfoldable pub complement : Cpu → Cpu
complement c = set_flag 0x60 (set_acc (Register8.complement (acc c)) c)

unfoldable pub swap : ℕ → Cpu → ℕ × Cpu
swap val c =
    let c1 = reset_flag Flag.all c in
    if val == 0 then (val, set_flag Flag.zero c1) else (u8 (bit_or (shl val 4) (shr val 4)), c1)

unfoldable pub swap_reg : Reg8 → Cpu → Cpu
swap_reg r c = through r swap c
