-- ===== src/Core/Decode/Matrix.antt =====
-- The standard opcodes 0x40 to 0xBF against their encoding: two groups of 64, the loads between
-- registers and the arithmetic on the accumulator.
use gameboi.Base.{ℕ, ◌/◌, ◌%◌, ◌≤◌, ◌<◌, ◌≡◌, ◌==◌, if◌then◌else◌, arith, refl}
use native.Mathlib.Decide.{dec_lt}
use gameboi.Cpu.State.{Cpu}
use gameboi.Cpu.Registers.{Reg16, get8}
use gameboi.Alu.Arith.{
  add, add_reg, add_c, add_c_reg, subtract, subtract_reg, subtract_c, subtract_c_reg,
  logical_compare, logical_compare_reg,
}
use gameboi.Alu.Logic.{
  logical_or, logical_or_reg, logical_and, logical_and_reg, logical_xor, logical_xor_reg,
}
use gameboi.Mmu.Bus.{Bus}
use gameboi.Core.Control.{halt}
use gameboi.Core.Memory.{read_data}
use gameboi.Core.Decode.Ending.{Outcome, done}
use gameboi.Core.Decode.Ending
use gameboi.Core.Decode.{standard}
use gameboi.Core.Decode.Standard2.{standard_2}
use gameboi.Core.Decode.Standard3.{standard_3}
use gameboi.Core.Decode.Standard4.{standard_4}
use gameboi.Core.Decode.Standard5.{standard_5}
use gameboi.Core.Decode.Encoding.{Each, each, ◌⊗◌, reg_of}

-- The operation of number `y` on the accumulator.
abbrev pub acc_op : ℕ → ℕ → Cpu → Cpu
acc_op y =
    if y == 0
    then add
    else if y == 1
    then add_c
    else if y == 2
    then subtract
    else if y == 3
    then subtract_c
    else if y == 4
    then logical_and
    else if y == 5
    then logical_xor
    else if y == 6
    then logical_or
    else logical_compare

module _ {W : Type 0} (b : Bus W) (w : W) where
  -- A load of operand `z` into operand `y`; of a register into itself it does nothing.
  abbrev pub loaded : ℕ → ℕ → W
  loaded y z =
      if y == z
      then w
      else if z == 6
      then Ending.load_from b (reg_of y) Reg16.hl w
      else if y == 6
      then Ending.store_at b Reg16.hl (reg_of z) w
      else Ending.load8 b (reg_of y) (get8 (reg_of z) (b.cpu w)) w

  abbrev pub computed : ℕ → ℕ → W
  computed y z =
      if z == 6
      then Ending.on_cpu b (acc_op y (read_data b (Ending.address_of b Reg16.hl w) w)) w
      else Ending.on_cpu b (λ c. acc_op y (get8 (reg_of z) c) c) w

  -- 0x76, which would load the byte at HL into itself, is `halt`.
  abbrev pub encoded_standard : ℕ → W
  encoded_standard inst =
      let y = inst / 8 % 8 in
      let z = inst % 8 in
      if inst == 0x76
      then Ending.on_cpu b halt w
      else if inst / 64 == 1
      then loaded y z
      else computed y z

  abbrev Regular : ℕ → ℕ → Type 0
  Regular val inst = standard b inst val w ≡ done (encoded_standard inst)

  row_2 : (val : ℕ) → Each (Regular val) 64 32
  unfolding standard standard_2 add_reg add_c_reg subtract_reg subtract_c_reg logical_and_reg
      logical_xor_reg logical_or_reg logical_compare_reg
  row_2 val =
      refl ⊗ refl ⊗ refl ⊗ refl ⊗ refl ⊗ refl ⊗ refl ⊗ refl ⊗ refl ⊗ refl ⊗ refl ⊗ refl ⊗ refl
      ⊗ refl ⊗ refl ⊗ refl ⊗ refl ⊗ refl ⊗ refl ⊗ refl ⊗ refl ⊗ refl ⊗ refl ⊗ refl ⊗ refl ⊗ refl
      ⊗ refl ⊗ refl ⊗ refl ⊗ refl ⊗ refl ⊗ refl ⊗ tt

  row_3 : (val : ℕ) → Each (Regular val) 96 32
  unfolding standard standard_3 add_reg add_c_reg subtract_reg subtract_c_reg logical_and_reg
      logical_xor_reg logical_or_reg logical_compare_reg
  row_3 val =
      refl ⊗ refl ⊗ refl ⊗ refl ⊗ refl ⊗ refl ⊗ refl ⊗ refl ⊗ refl ⊗ refl ⊗ refl ⊗ refl ⊗ refl
      ⊗ refl ⊗ refl ⊗ refl ⊗ refl ⊗ refl ⊗ refl ⊗ refl ⊗ refl ⊗ refl ⊗ refl ⊗ refl ⊗ refl ⊗ refl
      ⊗ refl ⊗ refl ⊗ refl ⊗ refl ⊗ refl ⊗ refl ⊗ tt

  row_4 : (val : ℕ) → Each (Regular val) 128 32
  unfolding standard standard_4 add_reg add_c_reg subtract_reg subtract_c_reg logical_and_reg
      logical_xor_reg logical_or_reg logical_compare_reg
  row_4 val =
      refl ⊗ refl ⊗ refl ⊗ refl ⊗ refl ⊗ refl ⊗ refl ⊗ refl ⊗ refl ⊗ refl ⊗ refl ⊗ refl ⊗ refl
      ⊗ refl ⊗ refl ⊗ refl ⊗ refl ⊗ refl ⊗ refl ⊗ refl ⊗ refl ⊗ refl ⊗ refl ⊗ refl ⊗ refl ⊗ refl
      ⊗ refl ⊗ refl ⊗ refl ⊗ refl ⊗ refl ⊗ refl ⊗ tt

  row_5 : (val : ℕ) → Each (Regular val) 160 32
  unfolding standard standard_5 add_reg add_c_reg subtract_reg subtract_c_reg logical_and_reg
      logical_xor_reg logical_or_reg logical_compare_reg
  row_5 val =
      refl ⊗ refl ⊗ refl ⊗ refl ⊗ refl ⊗ refl ⊗ refl ⊗ refl ⊗ refl ⊗ refl ⊗ refl ⊗ refl ⊗ refl
      ⊗ refl ⊗ refl ⊗ refl ⊗ refl ⊗ refl ⊗ refl ⊗ refl ⊗ refl ⊗ refl ⊗ refl ⊗ refl ⊗ refl ⊗ refl
      ⊗ refl ⊗ refl ⊗ refl ⊗ refl ⊗ refl ⊗ refl ⊗ tt

  -- The 128 standard opcodes from 0x40 to 0xBF do what their encoding says, whatever bytes follow
  -- them: the loads of operand into operand, with `halt` in the place of one, and the eight
  -- operations of the accumulator with an operand.
  pub standard-encoded :
      (inst val : ℕ) → 64 ≤ inst → inst < 192 → standard b inst val w ≡ done (encoded_standard inst)
  standard-encoded inst val lo hi = elim (dec_lt inst 128) [
    | yes loads ↦ elim (dec_lt inst 96) [
      | yes first ↦ each (Regular val) 64 32 inst (row_2 val) (omega arith) (omega arith)
      | no second ↦ each (Regular val) 96 32 inst (row_3 val) (omega arith) (omega arith)
    ]
    | no arithmetic ↦ elim (dec_lt inst 160) [
      | yes first ↦ each (Regular val) 128 32 inst (row_4 val) (omega arith) (omega arith)
      | no second ↦ each (Regular val) 160 32 inst (row_5 val) (omega arith) (omega arith)
    ]
  ]
