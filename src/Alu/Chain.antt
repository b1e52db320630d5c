-- ===== src/Alu/Chain.antt =====
-- How the operations of gameboy/src/cpu/alu.cpp work together: multi-byte sums and differences
-- over the carry flag, and the comparison as a subtraction that is not stored.
use gameboi.Base.{ℕ, ◌+◌, ◌-◌, ◌*◌, ◌%◌, ◌<◌, ◌≡◌, ltb, leb, arith}
use gameboi.Cpu.Flag
use gameboi.Cpu.State.{Cpu, acc, set_acc, test_flag}
use gameboi.Cpu.State.Flags.{set_acc-with_flags}
use gameboi.Alu.Arith.{add, add_c, subtract, subtract_c, logical_compare}
use gameboi.Alu.Arith.Laws.{subtract_lem, logical_compare_lem}
use gameboi.Alu.Arith.Results.{carry-set_acc, acc-add, carry-add, acc-add_c, carry-add_c}
use gameboi.Alu.Arith.Results.{acc-subtract, carry-subtract, acc-subtract_c, carry-subtract_c}

module _ (xh xl yh yl : ℕ) (c : Cpu) (hxh : xh < 256) (hxl : xl < 256) (hyh : yh < 256)
    (hyl : yl < 256) where
  -- Adding the low bytes by `add` and the high bytes by `add_c`, with the accumulator loaded in
  -- between, adds 16-bit numbers: the two accumulators are the sum modulo 2 ^ 16, and the carry
  -- flag says whether it wrapped.
  pub add_c-add :
      let low = add yl (set_acc xl c) in
      let high = add_c yh (set_acc xh low) in
      let x = xh * 256 + xl in
      let y = yh * 256 + yl in
      (acc high * 256 + acc low ≡ (x + y) % 65536) × (test_flag Flag.carry high ≡ leb 65536 (x + y))
  add_c-add =
      let low = add yl (set_acc xl c) in
      ground (
        arith,
        acc-add yl (set_acc xl c) hxl hyl,
        carry-add yl (set_acc xl c) hxl hyl,
        acc-add_c yh (set_acc xh low) hxh hyh,
        carry-add_c yh (set_acc xh low) hxh hyh,
        carry-set_acc xh low,
      )

  -- Subtracting the low bytes by `subtract` and the high bytes by `subtract_c` subtracts 16-bit
  -- numbers: the two accumulators are the difference modulo 2 ^ 16, and the carry flag says
  -- whether it was below 0.
  subtract_c-subtract :
      let low = subtract yl (set_acc xl c) in
      let high = subtract_c yh (set_acc xh low) in
      let x = xh * 256 + xl in
      let y = yh * 256 + yl in
      (acc high * 256 + acc low ≡ (x + 65536 - y) % 65536) × (test_flag Flag.carry high ≡ ltb x y)
  subtract_c-subtract =
      let low = subtract yl (set_acc xl c) in
      ground (
        arith,
        acc-subtract yl (set_acc xl c),
        carry-subtract yl (set_acc xl c),
        acc-subtract_c yh (set_acc xh low) hxh hyh,
        carry-subtract_c yh (set_acc xh low) hxh hyh,
        carry-set_acc xh low,
      )

-- `logical_compare` leaves the state that `subtract` leaves, but for the accumulator, which stays.
logical_compare-subtract :
    (v : ℕ) (c : Cpu) → acc c < 256 → v < 256 → logical_compare v c ≡ set_acc (acc c) (subtract v c)
logical_compare-subtract v c ha hv =
    simp (logical_compare_lem v c, subtract_lem v c, set_acc-with_flags) (ground arith)
