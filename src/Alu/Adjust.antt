-- ===== src/Alu/Adjust.antt =====
-- gameboy/src/cpu/alu.cpp: `decimal_adjust` and `add_to_stack_pointer`. The `int`s are 32-bit
-- patterns.
pub mod Decimal
pub mod Offset
use gameboi.Base.{
  ℕ, ◌+◌, Bool, ltb, ◌==◌, ◌||◌, if◌then◌else◌, bit_and, bit_xor, u8, u16, u32, sub32, sign_extend8,
}
use gameboi.Util.Mask
use gameboi.Register16.{value, assign}
use gameboi.Cpu.Flag
use gameboi.Cpu.State.{Cpu, acc, set_acc, reset_flag, test_flag, set_flag_if}

-- The correction of `acc`, before the flags are written.
unfoldable pub adjusted : Bool → Bool → Bool → ℕ → ℕ
adjusted negative half_carry carry acc =
    if negative
    then (let low = if half_carry then bit_and (sub32 acc 0x06) 0xFF else acc in
        if carry then sub32 low 0x60 else low)
    else (let low = if half_carry || ltb 0x09 (bit_and acc 0x0F) then u32 (acc + 0x06) else acc in
        if carry || ltb 0x9F low then u32 (low + 0x60) else low)

-- half_carry | zero
unfoldable pub decimal_adjust : Cpu → Cpu
decimal_adjust c =
    let adj =
      adjusted (test_flag Flag.negative c) (test_flag Flag.half_carry c) (test_flag Flag.carry c)
        (acc c) in
    let c1 = reset_flag 0xA0 c in
    let c2 = set_flag_if (Mask.test adj 0x100) Flag.carry c1 in
    let low = bit_and adj 0xFF in
    let c3 = set_flag_if (low == 0) Flag.zero c2 in set_acc (u8 low) c3

-- `immediate` is the byte of an `int8_t`.
unfoldable pub add_to_stack_pointer : ℕ → Cpu → Cpu
add_to_stack_pointer immediate c =
    let sp = value c.stack_pointer in
    let imm = sign_extend8 immediate in
    let c1 = reset_flag Flag.all c in
    let result = u32 (sp + imm) in
    let carries = bit_xor (bit_xor sp imm) (bit_and result 0xFFFF) in
    let c2 = set_flag_if (Mask.test carries 0x0100) Flag.carry c1 in
    let c3 = set_flag_if (Mask.test carries 0x0010) Flag.half_carry c2 in
    record c3 { stack_pointer = assign (u16 result) }
