-- ===== src/Alu/Arith.antt =====
-- gameboy/src/cpu/alu.cpp: additions, subtractions, increments and decrements.
pub mod Laws
pub mod Results
use gameboi.Base.{ℕ, ◌+◌, Bool, ltb, ◌==◌, bit_and, u8, u16, u32, sub8, sub32, is_negative32}
use gameboi.Register8
use gameboi.Register16.{Register16, value}
use gameboi.Register16
use gameboi.Util.Bit.{from_bool}
use gameboi.Util.Carry.{half_carry8, half_carry16, full_carry8, full_carry16}
use gameboi.Util.Carry.{half_borrow, full_borrow}
use gameboi.Cpu.Flag
use gameboi.Cpu.State.{Cpu, acc, set_acc, set_flag, reset_flag, test_flag, set_flag_if}
use gameboi.Cpu.Registers.{Reg8, get8, through}

unfoldable pub add : ℕ → Cpu → Cpu
add val c =
    let c1 = reset_flag Flag.all c in
    let c2 = set_flag_if (half_carry8 (acc c1) val) Flag.half_carry c1 in
    let c3 = set_flag_if (full_carry8 (acc c2) val) Flag.carry c2 in
    let c4 = set_acc (Register8.add_assign (acc c3) val) c3 in
    set_flag_if (acc c4 == 0) Flag.zero c4

unfoldable pub add_reg : Reg8 → Cpu → Cpu
add_reg r c = add (get8 r c) c

-- `acc + value` is a `uint16_t`, the sum with `carry` a `uint32_t`.
unfoldable pub add_c : ℕ → Cpu → Cpu
add_c val c =
    let carry = from_bool (test_flag Flag.carry c) in
    let result = u32 (u16 (acc c + val) + carry) in
    let c1 = reset_flag Flag.all c in
    let c2 =
      set_flag_if (ltb 0x0F (bit_and (acc c1) 0x0F + bit_and val 0x0F + carry)) Flag.half_carry
        c1 in
    let c3 = set_flag_if (ltb 0xFF result) Flag.carry c2 in
    let c4 = set_flag_if (bit_and result 0xFF == 0) Flag.zero c3 in
    set_acc (u8 (bit_and result 0xFF)) c4

unfoldable pub add_c_reg : Reg8 → Cpu → Cpu
add_c_reg r c = add_c (get8 r c) c

unfoldable pub subtract : ℕ → Cpu → Cpu
subtract val c =
    let c1 = set_flag Flag.negative (reset_flag Flag.all c) in
    let c2 = set_flag_if (half_borrow (acc c1) val) Flag.half_carry c1 in
    let c3 = set_flag_if (full_borrow (acc c2) val) Flag.carry c2 in
    let c4 = set_acc (Register8.sub_assign (acc c3) val) c3 in
    set_flag_if (acc c4 == 0) Flag.zero c4

unfoldable pub subtract_reg : Reg8 → Cpu → Cpu
subtract_reg r c = subtract (get8 r c) c

-- The differences are `int`s, here their 32-bit patterns.
unfoldable pub subtract_c : ℕ → Cpu → Cpu
subtract_c val c =
    let carry = from_bool (test_flag Flag.carry c) in
    let result = sub32 (sub32 (acc c) val) carry in
    let low = sub32 (sub32 (bit_and (acc c) 0x0F) (bit_and val 0x0F)) carry in
    let c1 = set_flag Flag.negative (reset_flag Flag.all c) in
    let c2 = set_flag_if (bit_and result 0xFF == 0) Flag.zero c1 in
    let c3 = set_flag_if (is_negative32 result) Flag.carry c2 in
    let c4 = set_flag_if (is_negative32 low) Flag.half_carry c3 in
    set_acc (u8 (bit_and result 0xFF)) c4

unfoldable pub subtract_c_reg : Reg8 → Cpu → Cpu
subtract_c_reg r c = subtract_c (get8 r c) c

unfoldable pub logical_compare : ℕ → Cpu → Cpu
logical_compare val c =
    let c1 = set_flag Flag.negative (reset_flag Flag.all c) in
    let c2 = set_flag_if (acc c1 == val) Flag.zero c1 in
    let c3 = set_flag_if (half_borrow (acc c2) val) Flag.half_carry c2 in
    set_flag_if (full_borrow (acc c3) val) Flag.carry c3

unfoldable pub logical_compare_reg : Reg8 → Cpu → Cpu
logical_compare_reg r c = logical_compare (get8 r c) c

-- negative | zero | half_carry
unfoldable pub increment : ℕ → Cpu → ℕ × Cpu
increment val c =
    let c1 = reset_flag 0xE0 c in
    let c2 = set_flag_if (half_carry8 val 1) Flag.half_carry c1 in
    let val' = u8 (val + 1) in (val', set_flag_if (val' == 0) Flag.zero c2)

unfoldable pub increment_reg : Reg8 → Cpu → Cpu
increment_reg r c = through r increment c

-- half_carry | zero
unfoldable pub decrement : ℕ → Cpu → ℕ × Cpu
decrement val c =
    let c1 = reset_flag 0xA0 (set_flag Flag.negative c) in
    let c2 = set_flag_if (half_borrow val 1) Flag.half_carry c1 in
    let val' = sub8 val 1 in (val', set_flag_if (val' == 0) Flag.zero c2)

unfoldable pub decrement_reg : Reg8 → Cpu → Cpu
decrement_reg r c = through r decrement c

-- negative | half_carry | carry; the left register is returned.
unfoldable pub add16 : Register16 → Register16 → Cpu → Register16 × Cpu
add16 r_left r_right c =
    let c1 = reset_flag 0x70 c in
    let c2 = set_flag_if (half_carry16 (value r_left) (value r_right)) Flag.half_carry c1 in
    let c3 = set_flag_if (full_carry16 (value r_left) (value r_right)) Flag.carry c2 in
    (Register16.add_assign r_left (value r_right), c3)
