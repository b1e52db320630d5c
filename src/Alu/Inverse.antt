-- ===== src/Alu/Inverse.antt =====
-- Operations of gameboy/src/cpu/alu.cpp that undo one another.
use gameboi.Base.{ℕ, ◌+◌, ◌*◌, ◌/◌, ◌%◌, ◌<◌, ◌≡◌, false, ◌==◌, arith}
use gameboi.Util.Bit.{from_bool}
use gameboi.Cpu.Flag
use gameboi.Cpu.State.{Cpu, test_flag}
use gameboi.Cpu.State.Flags.{with_flags, test-carry}
use gameboi.Alu.Arith.{increment, decrement}
use gameboi.Alu.Arith.Laws.{increment_lem, decrement_lem}
use gameboi.Alu.Logic.{swap}
use gameboi.Alu.Logic.Laws.{swap_lem}
use gameboi.Alu.Rotate.{rotate_left, rotate_right, rotate_left_c, rotate_right_c}
use gameboi.Alu.Rotate.Laws.{
  rotate_left_lem, rotate_right_lem, rotate_left_c_lem, rotate_right_c_lem,
}

-- A rotation of a byte right through the carry undoes one left: byte and carry come back.
rotate_right-rotate_left :
    (v : ℕ) (c : Cpu)
    → v < 256
    → let (r, c') = rotate_left v c in
      ((rotate_right r c').0 ≡ v)
      × (test_flag Flag.carry (rotate_right r c').1 ≡ test_flag Flag.carry c)
rotate_right-rotate_left v c h =
    let r = v % 128 * 2 + from_bool (test_flag Flag.carry c) in
    let c' = with_flags (r == 0) false false (v / 128 == 1) c in
    rw (rotate_left_lem v c h, rotate_right_lem r c' (ground arith))
      (simp test-carry (ground arith))

-- The rotations that do not go through the carry are inverse as well, swapping is its own inverse,
-- and counting down undoes counting up.
pub byte_inverses :
    (v : ℕ) (c : Cpu)
    → v < 256
    → c.a_f.low < 256
    → ((rotate_right_c (rotate_left_c v c).0 c).0 ≡ v)
      × ((swap (swap v c).0 c).0 ≡ v)
      × ((decrement (increment v c).0 c).0 ≡ v)
byte_inverses v c h hc = (
  rw (rotate_left_c_lem v c h, rotate_right_c_lem (v % 128 * 2 + v / 128) c (omega arith))
      (omega arith),
  rw (swap_lem v c h, swap_lem (v % 16 * 16 + v / 16) c (omega arith)) (omega arith),
  rw (increment_lem v c hc, decrement_lem ((v + 1) % 256) c hc) (omega arith),
)
