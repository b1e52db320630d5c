-- ===== src/Alu/Rotate.antt =====
-- gameboy/src/cpu/alu.cpp: rotations and shifts.
pub mod Laws
use gameboi.Base.{ℕ, ◌==◌, bit_and, bit_or, shl, shr, u8}
use gameboi.Util.Bit
use gameboi.Util.Bit.{from_bool}
use gameboi.Cpu.Flag
use gameboi.Cpu.State.{Cpu, reset_flag, test_flag, set_flag_if}
use gameboi.Cpu.Registers.{Reg8, through}

-- The tail that every rotation and shift writes out: clear all flags, then carry and zero.
abbrev shifted : ℕ → ℕ → Cpu → ℕ × Cpu
shifted bit_out val c =
    let c1 = reset_flag Flag.all c in
    let c2 = set_flag_if (bit_out == 1) Flag.carry c1 in (val, set_flag_if (val == 0) Flag.zero c2)

unfoldable pub rotate_left : ℕ → Cpu → ℕ × Cpu
rotate_left val c =
    let bit_7 = Bit.extract val 7 in
    let carry = from_bool (test_flag Flag.carry c) in
    shifted bit_7 (u8 (bit_or (shl val 1) carry)) c

unfoldable pub rotate_left_reg : Reg8 → Cpu → Cpu
rotate_left_reg r c = through r rotate_left c

unfoldable pub rotate_right : ℕ → Cpu → ℕ × Cpu
rotate_right val c =
    let bit_0 = Bit.extract val 0 in
    let carry = from_bool (test_flag Flag.carry c) in
    shifted bit_0 (u8 (bit_or (shr val 1) (shl carry 7))) c

unfoldable pub rotate_right_reg : Reg8 → Cpu → Cpu
rotate_right_reg r c = through r rotate_right c

unfoldable pub rotate_left_c : ℕ → Cpu → ℕ × Cpu
rotate_left_c val c =
    let bit_7 = Bit.extract val 7 in shifted bit_7 (u8 (bit_or (shl val 1) bit_7)) c

unfoldable pub rotate_left_c_reg : Reg8 → Cpu → Cpu
rotate_left_c_reg r c = through r rotate_left_c c

unfoldable pub rotate_right_c : ℕ → Cpu → ℕ × Cpu
rotate_right_c val c =
    let bit_0 = Bit.extract val 0 in shifted bit_0 (u8 (bit_or (shr val 1) (shl bit_0 7))) c

unfoldable pub rotate_right_c_reg : Reg8 → Cpu → Cpu
rotate_right_c_reg r c = through r rotate_right_c c

unfoldable pub shift_left : ℕ → Cpu → ℕ × Cpu
shift_left val c = let bit_7 = Bit.extract val 7 in shifted bit_7 (u8 (shl val 1)) c

unfoldable pub shift_left_reg : Reg8 → Cpu → Cpu
shift_left_reg r c = through r shift_left c

-- The overload on `preserve_last_bit_t`.
unfoldable pub shift_right_preserve : ℕ → Cpu → ℕ × Cpu
shift_right_preserve val c =
    let bit_7 = bit_and val 0x80 in
    let bit_0 = Bit.extract val 0 in shifted bit_0 (u8 (bit_or (shr val 1) bit_7)) c

unfoldable pub shift_right_preserve_reg : Reg8 → Cpu → Cpu
shift_right_preserve_reg r c = through r shift_right_preserve c

-- The overload on `reset_last_bit_t`.
unfoldable pub shift_right_reset : ℕ → Cpu → ℕ × Cpu
shift_right_reset val c = let bit_0 = Bit.extract val 0 in shifted bit_0 (shr val 1) c

unfoldable pub shift_right_reset_reg : Reg8 → Cpu → Cpu
shift_right_reset_reg r c = through r shift_right_reset c

unfoldable pub rotate_left_acc : Cpu → Cpu
rotate_left_acc c = reset_flag Flag.zero (rotate_left_reg Reg8.a c)

unfoldable pub rotate_right_acc : Cpu → Cpu
rotate_right_acc c = reset_flag Flag.zero (rotate_right_reg Reg8.a c)

unfoldable pub rotate_left_c_acc : Cpu → Cpu
rotate_left_c_acc c = reset_flag Flag.zero (rotate_left_c_reg Reg8.a c)

unfoldable pub rotate_right_c_acc : Cpu → Cpu
rotate_right_c_acc c = reset_flag Flag.zero (rotate_right_c_reg Reg8.a c)
