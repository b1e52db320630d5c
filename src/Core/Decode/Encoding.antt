-- ===== src/Core/Decode/Encoding.antt =====
-- The extended opcodes against their encoding: two bits for the group of operations, three for the
-- operation or the number of the bit, and three for the operand.
use gameboi.Base.{ℕ, zero, suc, ◌+◌, ◌/◌, ◌%◌, ◌≤◌, ◌<◌, ◌≡◌, ◌==◌, if◌then◌else◌, arith, refl}
use mathlib.Core.Path.{subst}
use native.Mathlib.Decide.{dec_lt}
use gameboi.Cpu.State.{Cpu}
use gameboi.Cpu.Registers.{Reg8, through}
use gameboi.Alu.Rotate.{
  rotate_left, rotate_right, rotate_left_c, rotate_right_c, shift_left, shift_right_preserve,
  shift_right_reset, rotate_left_reg, rotate_right_reg, rotate_left_c_reg, rotate_right_c_reg,
  shift_left_reg, shift_right_preserve_reg, shift_right_reset_reg,
}
use gameboi.Alu.Logic.{swap, swap_reg}
use gameboi.Alu.Bits.{test, test_reg, set, set_reg, reset, reset_reg}
use gameboi.Mmu.Bus.{Bus}
use gameboi.Core.Decode.Ending.{Outcome, done}
use gameboi.Core.Decode.Ending
use gameboi.Core.Decode.{extended}
use gameboi.Core.Decode.Extended0.{extended_0}
use gameboi.Core.Decode.Extended1.{extended_1}
use gameboi.Core.Decode.Extended2.{extended_2}
use gameboi.Core.Decode.Extended3.{extended_3}
use gameboi.Core.Decode.Extended4.{extended_4}
use gameboi.Core.Decode.Extended5.{extended_5}
use gameboi.Core.Decode.Extended6.{extended_6}
use gameboi.Core.Decode.Extended7.{extended_7}

-- A statement for every number of a range.
abbrev pub Each : (ℕ → Type 0) → ℕ → ℕ → Type 0
Each P from zero = Unit
Each P from (suc n) = P from × Each P (from + 1) n

-- A statement in front of the rest of a range.
infixr 4 ◌⊗◌
abbrev pub ◌⊗◌ : {A B : Type 0} → A → B → A × B
(first ⊗ rest) = (first, rest)

pub each : (P : ℕ → Type 0) (from n i : ℕ) → Each P from n → from ≤ i → i < from + n → P i
each P from zero i e lo hi = absurd (omega arith)
each P from (suc n) i e lo hi = elim (dec_lt from i) [
  | yes above ↦ each P (from + 1) n i (e.1) (omega arith) (omega arith)
  | no here ↦ let first : from ≡ i = omega arith in subst P first (e.0)
]

-- The operand of the lowest three bits, but for 6, which is the byte at HL.
abbrev pub reg_of : ℕ → Reg8
reg_of z =
    if z == 0
    then Reg8.b
    else if z == 1
    then Reg8.c
    else if z == 2
    then Reg8.d
    else if z == 3
    then Reg8.e
    else if z == 4
    then Reg8.h
    else if z == 5
    then Reg8.l
    else Reg8.a

-- The operation on the byte, of group `x` and number `y`.
abbrev pub byte_op : ℕ → ℕ → ℕ → Cpu → ℕ × Cpu
byte_op x y =
    if x == 1
    then (λ v c. (v, test v y c))
    else if x == 2
    then (λ v c. (reset v y, c))
    else if x == 3
    then (λ v c. (set v y, c))
    else if y == 0
    then rotate_left_c
    else if y == 1
    then rotate_right_c
    else if y == 2
    then rotate_left
    else if y == 3
    then rotate_right
    else if y == 4
    then shift_left
    else if y == 5
    then shift_right_preserve
    else if y == 6
    then swap
    else shift_right_reset

module _ {W : Type 0} (b : Bus W) (w : W) where
  -- The test of a bit of a register only reads it; every other operation writes its result back.
  abbrev pub encoded : ℕ → W
  encoded inst =
      let x = inst / 64 in
      let y = inst / 8 % 8 in
      let z = inst % 8 in
      if z == 6
      then Ending.through_memory b (byte_op x y) w
      else if x == 1
      then Ending.on_cpu b (test_reg (reg_of z) y) w
      else Ending.on_cpu b (through (reg_of z) (byte_op x y)) w

  abbrev Regular : ℕ → Type 0
  Regular inst = extended b inst w ≡ done (encoded inst)

  row_0 : Each Regular 0 32
  unfolding extended extended_0 rotate_left_reg rotate_right_reg rotate_left_c_reg
      rotate_right_c_reg shift_left_reg shift_right_preserve_reg shift_right_reset_reg swap_reg
      test_reg set_reg reset_reg
  row_0 =
      refl ⊗ refl ⊗ refl ⊗ refl ⊗ refl ⊗ refl ⊗ refl ⊗ refl ⊗ refl ⊗ refl ⊗ refl ⊗ refl ⊗ refl
      ⊗ refl ⊗ refl ⊗ refl ⊗ refl ⊗ refl ⊗ refl ⊗ refl ⊗ refl ⊗ refl ⊗ refl ⊗ refl ⊗ refl ⊗ refl
      ⊗ refl ⊗ refl ⊗ refl ⊗ refl ⊗ refl ⊗ refl ⊗ tt

  row_1 : Each Regular 32 32
  unfolding extended extended_1 rotate_left_reg rotate_right_reg rotate_left_c_reg
      rotate_right_c_reg shift_left_reg shift_right_preserve_reg shift_right_reset_reg swap_reg
      test_reg set_reg reset_reg
  row_1 =
      refl ⊗ refl ⊗ refl ⊗ refl ⊗ refl ⊗ refl ⊗ refl ⊗ refl ⊗ refl ⊗ refl ⊗ refl ⊗ refl ⊗ refl
      ⊗ refl ⊗ refl ⊗ refl ⊗ refl ⊗ refl ⊗ refl ⊗ refl ⊗ refl ⊗ refl ⊗ refl ⊗ refl ⊗ refl ⊗ refl
      ⊗ refl ⊗ refl ⊗ refl ⊗ refl ⊗ refl ⊗ refl ⊗ tt

  row_2 : Each Regular 64 32
  unfolding extended extended_2 rotate_left_reg rotate_right_reg rotate_left_c_reg
      rotate_right_c_reg shift_left_reg shift_right_preserve_reg shift_right_reset_reg swap_reg
      test_reg set_reg reset_reg
  row_2 =
      refl ⊗ refl ⊗ refl ⊗ refl ⊗ refl ⊗ refl ⊗ refl ⊗ refl ⊗ refl ⊗ refl ⊗ refl ⊗ refl ⊗ refl
      ⊗ refl ⊗ refl ⊗ refl ⊗ refl ⊗ refl ⊗ refl ⊗ refl ⊗ refl ⊗ refl ⊗ refl ⊗ refl ⊗ refl ⊗ refl
      ⊗ refl ⊗ refl ⊗ refl ⊗ refl ⊗ refl ⊗ refl ⊗ tt

  row_3 : Each Regular 96 32
  unfolding extended extended_3 rotate_left_reg rotate_right_reg rotate_left_c_reg
      rotate_right_c_reg shift_left_reg shift_right_preserve_reg shift_right_reset_reg swap_reg
      test_reg set_reg reset_reg
  row_3 =
      refl ⊗ refl ⊗ refl ⊗ refl ⊗ refl ⊗ refl ⊗ refl ⊗ refl ⊗ refl ⊗ refl ⊗ refl ⊗ refl ⊗ refl
      ⊗ refl ⊗ refl ⊗ refl ⊗ refl ⊗ refl ⊗ refl ⊗ refl ⊗ refl ⊗ refl ⊗ refl ⊗ refl ⊗ refl ⊗ refl
      ⊗ refl ⊗ refl ⊗ refl ⊗ refl ⊗ refl ⊗ refl ⊗ tt

  row_4 : Each Regular 128 32
  unfolding extended extended_4 rotate_left_reg rotate_right_reg rotate_left_c_reg
      rotate_right_c_reg shift_left_reg shift_right_preserve_reg shift_right_reset_reg swap_reg
      test_reg set_reg reset_reg
  row_4 =
      refl ⊗ refl ⊗ refl ⊗ refl ⊗ refl ⊗ refl ⊗ refl ⊗ refl ⊗ refl ⊗ refl ⊗ refl ⊗ refl ⊗ refl
      ⊗ refl ⊗ refl ⊗ refl ⊗ refl ⊗ refl ⊗ refl ⊗ refl ⊗ refl ⊗ refl ⊗ refl ⊗ refl ⊗ refl ⊗ refl
      ⊗ refl ⊗ refl ⊗ refl ⊗ refl ⊗ refl ⊗ refl ⊗ tt

  row_5 : Each Regular 160 32
  unfolding extended extended_5 rotate_left_reg rotate_right_reg rotate_left_c_reg
      rotate_right_c_reg shift_left_reg shift_right_preserve_reg shift_right_reset_reg swap_reg
      test_reg set_reg reset_reg
  row_5 =
      refl ⊗ refl ⊗ refl ⊗ refl ⊗ refl ⊗ refl ⊗ refl ⊗ refl ⊗ refl ⊗ refl ⊗ refl ⊗ refl ⊗ refl
      ⊗ refl ⊗ refl ⊗ refl ⊗ refl ⊗ refl ⊗ refl ⊗ refl ⊗ refl ⊗ refl ⊗ refl ⊗ refl ⊗ refl ⊗ refl
      ⊗ refl ⊗ refl ⊗ refl ⊗ refl ⊗ refl ⊗ refl ⊗ tt

  row_6 : Each Regular 192 32
  unfolding extended extended_6 rotate_left_reg rotate_right_reg rotate_left_c_reg
      rotate_right_c_reg shift_left_reg shift_right_preserve_reg shift_right_reset_reg swap_reg
      test_reg set_reg reset_reg
  row_6 =
      refl ⊗ refl ⊗ refl ⊗ refl ⊗ refl ⊗ refl ⊗ refl ⊗ refl ⊗ refl ⊗ refl ⊗ refl ⊗ refl ⊗ refl
      ⊗ refl ⊗ refl ⊗ refl ⊗ refl ⊗ refl ⊗ refl ⊗ refl ⊗ refl ⊗ refl ⊗ refl ⊗ refl ⊗ refl ⊗ refl
      ⊗ refl ⊗ refl ⊗ refl ⊗ refl ⊗ refl ⊗ refl ⊗ tt

  row_7 : Each Regular 224 32
  unfolding extended extended_7 rotate_left_reg rotate_right_reg rotate_left_c_reg
      rotate_right_c_reg shift_left_reg shift_right_preserve_reg shift_right_reset_reg swap_reg
      test_reg set_reg reset_reg
  row_7 =
      refl ⊗ refl ⊗ refl ⊗ refl ⊗ refl ⊗ refl ⊗ refl ⊗ refl ⊗ refl ⊗ refl ⊗ refl ⊗ refl ⊗ refl
      ⊗ refl ⊗ refl ⊗ refl ⊗ refl ⊗ refl ⊗ refl ⊗ refl ⊗ refl ⊗ refl ⊗ refl ⊗ refl ⊗ refl ⊗ refl
      ⊗ refl ⊗ refl ⊗ refl ⊗ refl ⊗ refl ⊗ refl ⊗ tt

  -- All 256 extended opcodes do what their encoding says: the operation of bits 3 to 7 on the
  -- operand of bits 0 to 2.
  pub extended-encoded : (inst : ℕ) → inst < 256 → extended b inst w ≡ done (encoded inst)
  extended-encoded inst h = elim (dec_lt inst 128) [
    | yes lower ↦ elim (dec_lt inst 64) [
      | yes lowest ↦ elim (dec_lt inst 32) [
        | yes first ↦ each Regular 0 32 inst row_0 (omega arith) (omega arith)
        | no second ↦ each Regular 32 32 inst row_1 (omega arith) (omega arith)
      ]
      | no middle ↦ elim (dec_lt inst 96) [
        | yes first ↦ each Regular 64 32 inst row_2 (omega arith) (omega arith)
        | no second ↦ each Regular 96 32 inst row_3 (omega arith) (omega arith)
      ]
    ]
    | no upper ↦ elim (dec_lt inst 192) [
      | yes middle ↦ elim (dec_lt inst 160) [
        | yes first ↦ each Regular 128 32 inst row_4 (omega arith) (omega arith)
        | no second ↦ each Regular 160 32 inst row_5 (omega arith) (omega arith)
      ]
      | no highest ↦ elim (dec_lt inst 224) [
        | yes first ↦ each Regular 192 32 inst row_6 (omega arith) (omega arith)
        | no second ↦ each Regular 224 32 inst row_7 (omega arith) (omega arith)
      ]
    ]
  ]
