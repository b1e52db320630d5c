-- ===== src/Alu/Arith/Laws.antt =====
-- Each operation as one equation of states: the new accumulator, the four flags as comparisons of
-- sums and differences, and nothing else changed.
use gameboi.Base.{
  ℕ, ◌+◌, ◌-◌, ◌%◌, ◌<◌, ◌≡◌, ap, ◌∙◌, Bool, true, false, ◌==◌, ltb, leb, arith, mask_0f, mask_ff,
}
use gameboi.Register16.{Register16, IsBytes, value, add_assign}
use gameboi.Util.Bit.{from_bool}
use gameboi.Util.Carry.Laws.{
  half_carry8_lem, half_carry16_lem, full_carry8_lem, full_carry16_lem, half_borrow_lem,
  full_borrow_lem,
}
use gameboi.Cpu.Flag
use gameboi.Cpu.State.{Cpu, acc, set_acc, test_flag}
use gameboi.Cpu.State.Flags.{
  with_flags, flag_laws, reset-all, flags_of, reset_all_but_carry, reset-half_carry-zero,
  reset_all_but_zero,
}
use gameboi.Register16.Laws.{value-lt}
use gameboi.Alu.Arith.{
  add, add_c, subtract, subtract_c, logical_compare, increment, decrement, add16,
}

pub add_lem :
    (v : ℕ) (c : Cpu)
    → acc c < 256
    → v < 256
    → let r = (acc c + v) % 256 in
      add v c
      ≡ with_flags (r == 0) false (leb 16 (acc c % 16 + v % 16)) (leb 256 (acc c + v)) (set_acc r c)
unfolding add
add_lem v c ha hv = simp (flag_laws, reset-all, half_carry8_lem, full_carry8_lem (acc c) v ha hv)

pub add_c_lem :
    (v : ℕ) (c : Cpu)
    → acc c < 256
    → v < 256
    → let k = from_bool (test_flag Flag.carry c) in
      let r = (acc c + v + k) % 256 in
      add_c v c
      ≡ with_flags
          (r == 0)
          false
          (leb 16 (acc c % 16 + v % 16 + k))
          (leb 256 (acc c + v + k))
          (set_acc r c)
unfolding add_c
add_c_lem v c ha hv = simp (flag_laws, reset-all, mask_0f, mask_ff) (ground arith)

pub subtract_lem :
    (v : ℕ) (c : Cpu)
    → let r = (acc c + 256 - v) % 256 in
      subtract v c
      ≡ with_flags (r == 0) true (ltb (acc c % 16) (v % 16)) (ltb (acc c) v) (set_acc r c)
unfolding subtract
subtract_lem v c = simp (flag_laws, reset-all, half_borrow_lem, full_borrow_lem)

pub subtract_c_lem :
    (v : ℕ) (c : Cpu)
    → acc c < 256
    → v < 256
    → let k = from_bool (test_flag Flag.carry c) in
      let r = (acc c + 512 - v - k) % 256 in
      subtract_c v c
      ≡ with_flags (r == 0) true (ltb (acc c % 16) (v % 16 + k)) (ltb (acc c) (v + k)) (set_acc r c)
unfolding subtract_c
subtract_c_lem v c ha hv = simp (flag_laws, reset-all, mask_0f, mask_ff) (ground arith)

pub logical_compare_lem :
    (v : ℕ) (c : Cpu)
    → logical_compare v c
      ≡ with_flags (acc c == v) true (ltb (acc c % 16) (v % 16)) (ltb (acc c) v) c
unfolding logical_compare
logical_compare_lem v c = simp (flag_laws, reset-all, half_borrow_lem, full_borrow_lem)

increment_flags :
    (v : ℕ) (z n h k : Bool) (c : Cpu)
    → let r = (v + 1) % 256 in
      increment v (with_flags z n h k c) ≡ (r, with_flags (r == 0) false (v % 16 == 15) k c)
unfolding increment
increment_flags v z n h k c = simp (flag_laws, reset_all_but_carry, half_carry8_lem) (ground arith)

-- The carry stays.
pub increment_lem :
    (v : ℕ) (c : Cpu)
    → c.a_f.low < 256
    → let r = (v + 1) % 256 in
      increment v c ≡ (r, with_flags (r == 0) false (v % 16 == 15) (test_flag Flag.carry c) c)
increment_lem v c h = ap (increment v) (flags_of c h) ∙ increment_flags v _ _ _ _ c

decrement_flags :
    (v : ℕ) (z n h k : Bool) (c : Cpu)
    → let r = (v + 255) % 256 in
      decrement v (with_flags z n h k c) ≡ (r, with_flags (r == 0) true (v % 16 == 0) k c)
unfolding decrement
decrement_flags v z n h k c =
    simp (flag_laws, reset-half_carry-zero, half_borrow_lem) (ground arith)

pub decrement_lem :
    (v : ℕ) (c : Cpu)
    → c.a_f.low < 256
    → let r = (v + 255) % 256 in
      decrement v c ≡ (r, with_flags (r == 0) true (v % 16 == 0) (test_flag Flag.carry c) c)
decrement_lem v c h = ap (decrement v) (flags_of c h) ∙ decrement_flags v _ _ _ _ c

add16_flags :
    (l r : Register16) (z n h k : Bool) (c : Cpu)
    → IsBytes l
    → IsBytes r
    → add16 l r (with_flags z n h k c) ≡ (
      add_assign l (value r),
      with_flags z false
          (leb 4096 (value l % 4096 + value r % 4096))
          (leb 65536 (value l + value r))
          c,
    )
unfolding add16
add16_flags l r z n h k c hl hr = simp (
  flag_laws,
  reset_all_but_zero,
  half_carry16_lem,
  full_carry16_lem (value l) (value r) (value-lt hl) (value-lt hr),
)

-- Adding a register pair to another adds 16-bit numbers modulo 2 ^ 16; half carry and carry are
-- those out of bits 11 and 15, negative is cleared and zero stays.
add16_lem :
    (l r : Register16) (c : Cpu)
    → IsBytes l
    → IsBytes r
    → c.a_f.low < 256
    → add16 l r c ≡ (
      add_assign l (value r),
      with_flags
          (test_flag Flag.zero c)
          false
          (leb 4096 (value l % 4096 + value r % 4096))
          (leb 65536 (value l + value r))
          c,
    )
add16_lem l r c hl hr h = ap (add16 l r) (flags_of c h) ∙ add16_flags l r _ _ _ _ c hl hr
