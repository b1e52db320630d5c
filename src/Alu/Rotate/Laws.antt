-- ===== src/Alu/Rotate/Laws.antt =====
-- Rotations and shifts as arithmetic on the byte, and their inverses.
use gameboi.Base.{
  ℕ, ◌+◌, ◌*◌, ◌/◌, ◌%◌, ◌<◌, ◌≡◌, false, ◌==◌, arith, bit_or_fields, bit_and_bit, bit_or_bit,
  bit_or_zero,
}
use gameboi.Util.Bit.{from_bool}
use gameboi.Util.Bit.Laws.{extract_lem}
use gameboi.Cpu.Flag
use gameboi.Cpu.State.{Cpu, test_flag}
use gameboi.Cpu.State.Flags.{with_flags, flag_laws, reset-all}
use gameboi.Alu.Rotate.{
  rotate_left, rotate_right, rotate_left_c, rotate_right_c, shift_left, shift_right_preserve,
  shift_right_reset,
}

pub rotate_left_lem :
    (v : ℕ) (c : Cpu)
    → v < 256
    → let r = v % 128 * 2 + from_bool (test_flag Flag.carry c) in
      rotate_left v c ≡ (r, with_flags (r == 0) false false (v / 128 == 1) c)
unfolding rotate_left
rotate_left_lem v c h =
    simp (flag_laws, reset-all, extract_lem)
      (ground (arith, bit_or_fields 1 v (from_bool (test_flag Flag.carry c))))

pub rotate_right_lem :
    (v : ℕ) (c : Cpu)
    → v < 256
    → let r = v / 2 + from_bool (test_flag Flag.carry c) * 128 in
      rotate_right v c ≡ (r, with_flags (r == 0) false false (v % 2 == 1) c)
unfolding rotate_right
rotate_right_lem v c h =
    simp (flag_laws, reset-all, extract_lem)
      (ground (arith, bit_or_bit 7 (v / 2), bit_or_zero (v / 2)))

pub rotate_left_c_lem :
    (v : ℕ) (c : Cpu)
    → v < 256
    → let r = v % 128 * 2 + v / 128 in
      rotate_left_c v c ≡ (r, with_flags (r == 0) false false (v / 128 == 1) c)
unfolding rotate_left_c
rotate_left_c_lem v c h =
    simp (flag_laws, reset-all, extract_lem) (ground (arith, bit_or_fields 1 v (v / 128 % 2)))

pub rotate_right_c_lem :
    (v : ℕ) (c : Cpu)
    → v < 256
    → let r = v / 2 + v % 2 * 128 in
      rotate_right_c v c ≡ (r, with_flags (r == 0) false false (v % 2 == 1) c)
unfolding rotate_right_c
rotate_right_c_lem v c h =
    simp (flag_laws, reset-all, extract_lem)
      (ground (arith, bit_or_bit 7 (v / 2), bit_or_zero (v / 2)))

pub shift_left_lem :
    (v : ℕ) (c : Cpu)
    → v < 256
    → let r = v % 128 * 2 in shift_left v c ≡ (r, with_flags (r == 0) false false (v / 128 == 1) c)
unfolding shift_left
shift_left_lem v c h = simp (flag_laws, reset-all, extract_lem) (ground arith)

pub shift_right_preserve_lem :
    (v : ℕ) (c : Cpu)
    → v < 256
    → let r = v / 2 + v / 128 * 128 in
      shift_right_preserve v c ≡ (r, with_flags (r == 0) false false (v % 2 == 1) c)
unfolding shift_right_preserve
shift_right_preserve_lem v c h =
    simp (flag_laws, reset-all, extract_lem)
      (ground (arith, bit_and_bit 7 v, bit_or_bit 7 (v / 2), bit_or_zero (v / 2)))

pub shift_right_reset_lem :
    (v : ℕ) (c : Cpu)
    → v < 256
    → shift_right_reset v c ≡ (v / 2, with_flags (v / 2 == 0) false false (v % 2 == 1) c)
unfolding shift_right_reset
shift_right_reset_lem v c h = simp (flag_laws, reset-all, extract_lem) (ground arith)
