-- ===== src/Alu/Adjust/Decimal.antt =====
-- `decimal_adjust` corrects the sum and the difference of two packed decimal numbers.
use gameboi.Base.{
  ℕ, ◌+◌, ◌-◌, ◌*◌, ◌/◌, ◌%◌, ◌<◌, ◌≡◌, Bool, true, false, ◌==◌, ◌||◌, ltb, leb, arith, mask_ff,
  mask_0f, sub32,
}
use gameboi.Util.Bit.{from_bool}
use gameboi.Util.Mask.Laws
use gameboi.Cpu.Flag
use gameboi.Cpu.State.{Cpu, acc, set_acc, test_flag}
use gameboi.Cpu.State.Flags.{
  with_flags, flag_laws, set_if-carry_kept, reset-half_carry-zero, test-carry, test-half_carry,
  test-negative,
}
use gameboi.Alu.Adjust.{adjusted, decimal_adjust}
use gameboi.Alu.Arith.{add_c, subtract_c}
use gameboi.Alu.Arith.Laws.{add_c_lem, subtract_c_lem}

pub decimal_adjust_flags :
    (z n h k : Bool) (c : Cpu)
    → let adj = adjusted n h k (acc c) in
      let r = adj % 256 in
      decimal_adjust (with_flags z n h k c)
      ≡ with_flags (r == 0) n false ((adj / 256 % 2 == 1) || k) (set_acc r c)
unfolding decimal_adjust
decimal_adjust_flags z n h k c =
    simp
      (
        flag_laws,
        set_if-carry_kept,
        reset-half_carry-zero,
        test-carry,
        test-half_carry,
        test-negative,
        Laws.test_lem _ 8,
        mask_ff,
      )
      (ground arith)

-- Two decimal digits in a byte.
abbrev pub bcd : ℕ → ℕ
bcd x = x / 10 * 16 + x % 10

adjusted_sum :
    (x y : ℕ) (k : Bool)
    → x < 100
    → y < 100
    → let s = bcd x + bcd y + from_bool k in
      let adj =
        adjusted false (leb 16 (bcd x % 16 + bcd y % 16 + from_bool k)) (leb 256 s) (s % 256) in
      (adj % 256 ≡ bcd ((x + y + from_bool k) % 100))
      × (((adj / 256 % 2 == 1) || leb 256 s) ≡ leb 100 (x + y + from_bool k))
unfolding adjusted
adjusted_sum x y k hx hy = ground (arith, mask_0f ((bcd x + bcd y + from_bool k) % 256))

adjusted_difference :
    (x y : ℕ) (k : Bool)
    → x < 100
    → y < 100
    → let borrow = from_bool k in
      let d = (bcd x + 512 - bcd y - borrow) % 256 in
      let adj =
        adjusted true (ltb (bcd x % 16) (bcd y % 16 + borrow)) (ltb (bcd x) (bcd y + borrow)) d in
      (adj % 256 ≡ bcd ((x + 100 - y - borrow) % 100))
      × (((adj / 256 % 2 == 1) || ltb (bcd x) (bcd y + borrow)) ≡ ltb x (y + borrow))
unfolding adjusted
adjusted_difference x y k hx hy =
    ground (arith, mask_ff (sub32 ((bcd x + 512 - bcd y - from_bool k) % 256) 0x06))

-- Adding a packed decimal number with `add_c` and adjusting gives the packed sum of both and the
-- carry modulo 100, and the carry when it passes 99.
pub decimal_add :
    (x y : ℕ) (c : Cpu)
    → x < 100
    → y < 100
    → acc c ≡ bcd x
    → let k = from_bool (test_flag Flag.carry c) in
      let c' = decimal_adjust (add_c (bcd y) c) in
      (acc c' ≡ bcd ((x + y + k) % 100)) × (test_flag Flag.carry c' ≡ leb 100 (x + y + k))
decimal_add x y c hx hy e =
    let fits : acc c < 256 = omega arith in
    let fits' : bcd y < 256 = omega arith in
    simp (add_c_lem (bcd y) c fits fits', decimal_adjust_flags, test-carry, flag_laws, e)
      (adjusted_sum x y (test_flag Flag.carry c) hx hy)

-- Subtracting a packed decimal number with `subtract_c` and adjusting gives the packed difference
-- modulo 100, less the borrow in the carry flag, and the carry when it falls below 0.
decimal_subtract :
    (x y : ℕ) (c : Cpu)
    → x < 100
    → y < 100
    → acc c ≡ bcd x
    → let k = from_bool (test_flag Flag.carry c) in
      let c' = decimal_adjust (subtract_c (bcd y) c) in
      (acc c' ≡ bcd ((x + 100 - y - k) % 100)) × (test_flag Flag.carry c' ≡ ltb x (y + k))
decimal_subtract x y c hx hy e =
    let fits : acc c < 256 = omega arith in
    let fits' : bcd y < 256 = omega arith in
    simp (subtract_c_lem (bcd y) c fits fits', decimal_adjust_flags, test-carry, flag_laws, e)
      (adjusted_difference x y (test_flag Flag.carry c) hx hy)
