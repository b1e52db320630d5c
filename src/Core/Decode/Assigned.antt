-- ===== src/Core/Decode/Assigned.antt =====
-- Which opcodes the standard switch has a case for.
use gameboi.Base.{
  ℕ, ◌<◌, ◌≡◌, Bool, true, false, not, ◌&&◌, ◌==◌, get_or, Option, none, some, arith, refl, ◌∙◌,
}
use native.Mathlib.Decide.{dec_lt}
use gameboi.Mmu.Bus.{Bus}
use gameboi.Core.Decode.Ending.{Outcome, done, untaken, unknown, branch}
use gameboi.Core.Decode.Info.{standard_lengths, standard_cycles, false_branch_cycle_count}
use gameboi.Core.Decode.{conclude, standard, operand, decode_standard}
use gameboi.Core.Decode.Standard0.{standard_0}
use gameboi.Core.Decode.Standard1.{standard_1}
use gameboi.Core.Decode.Standard2.{standard_2}
use gameboi.Core.Decode.Standard3.{standard_3}
use gameboi.Core.Decode.Standard4.{standard_4}
use gameboi.Core.Decode.Standard5.{standard_5}
use gameboi.Core.Decode.Standard6.{standard_6}
use gameboi.Core.Decode.Standard7.{standard_7}
use gameboi.Core.Decode.Encoding.{Each, each, ◌⊗◌}

abbrev is_known : {W : Type 0} → Outcome W → Bool
is_known (done w) = true
is_known (untaken w) = true
is_known unknown = false

abbrev pub returns : {W : Type 0} → Option (ℕ × W) → Bool
returns none = false
returns (some result) = true

-- The table has a length for the opcode, and it is not the prefix of the extended opcodes.
abbrev pub is_assigned : ℕ → Bool
is_assigned inst = not (get_or standard_lengths inst 0 == 0) && not (inst == 0xCB)

known-branch : {W : Type 0} (taken : Bool) (w after : W) → is_known (branch taken w after) ≡ true
known-branch true w after = refl
known-branch false w after = refl

returns-conclude :
    {W : Type 0} (cycles false_cycles : ℕ) (o : Outcome W)
    → returns (conclude cycles false_cycles o) ≡ is_known o
unfolding conclude
returns-conclude cycles false_cycles (done w) = refl
returns-conclude cycles false_cycles (untaken w) = refl
returns-conclude cycles false_cycles unknown = refl

module _ {W : Type 0} (b : Bus W) where
  abbrev Agrees : ℕ → W → ℕ → Type 0
  Agrees val w inst = is_known (standard b inst val w) ≡ is_assigned inst

  row_0 : (val : ℕ) (w : W) → Each (Agrees val w) 0 32
  unfolding standard standard_0
  row_0 val w =
      refl ⊗ refl ⊗ refl ⊗ refl ⊗ refl ⊗ refl ⊗ refl ⊗ refl ⊗ refl ⊗ refl ⊗ refl ⊗ refl ⊗ refl
      ⊗ refl ⊗ refl ⊗ refl ⊗ refl ⊗ refl ⊗ refl ⊗ refl ⊗ refl ⊗ refl ⊗ refl ⊗ refl ⊗ refl ⊗ refl
      ⊗ refl ⊗ refl ⊗ refl ⊗ refl ⊗ refl ⊗ refl ⊗ tt

  row_1 : (val : ℕ) (w : W) → Each (Agrees val w) 32 32
  unfolding standard standard_1
  row_1 val w =
      known-branch _ _ _
      ⊗ refl
      ⊗ refl
      ⊗ refl
      ⊗ refl
      ⊗ refl
      ⊗ refl
      ⊗ refl
      ⊗ known-branch _ _ _
      ⊗ refl
      ⊗ refl
      ⊗ refl
      ⊗ refl
      ⊗ refl
      ⊗ refl
      ⊗ refl
      ⊗ known-branch _ _ _
      ⊗ refl
      ⊗ refl
      ⊗ refl
      ⊗ refl
      ⊗ refl
      ⊗ refl
      ⊗ refl
      ⊗ known-branch _ _ _
      ⊗ refl
      ⊗ refl
      ⊗ refl
      ⊗ refl
      ⊗ refl
      ⊗ refl
      ⊗ refl
      ⊗ tt

  row_2 : (val : ℕ) (w : W) → Each (Agrees val w) 64 32
  unfolding standard standard_2
  row_2 val w =
      refl ⊗ refl ⊗ refl ⊗ refl ⊗ refl ⊗ refl ⊗ refl ⊗ refl ⊗ refl ⊗ refl ⊗ refl ⊗ refl ⊗ refl
      ⊗ refl ⊗ refl ⊗ refl ⊗ refl ⊗ refl ⊗ refl ⊗ refl ⊗ refl ⊗ refl ⊗ refl ⊗ refl ⊗ refl ⊗ refl
      ⊗ refl ⊗ refl ⊗ refl ⊗ refl ⊗ refl ⊗ refl ⊗ tt

  row_3 : (val : ℕ) (w : W) → Each (Agrees val w) 96 32
  unfolding standard standard_3
  row_3 val w =
      refl ⊗ refl ⊗ refl ⊗ refl ⊗ refl ⊗ refl ⊗ refl ⊗ refl ⊗ refl ⊗ refl ⊗ refl ⊗ refl ⊗ refl
      ⊗ refl ⊗ refl ⊗ refl ⊗ refl ⊗ refl ⊗ refl ⊗ refl ⊗ refl ⊗ refl ⊗ refl ⊗ refl ⊗ refl ⊗ refl
      ⊗ refl ⊗ refl ⊗ refl ⊗ refl ⊗ refl ⊗ refl ⊗ tt

  row_4 : (val : ℕ) (w : W) → Each (Agrees val w) 128 32
  unfolding standard standard_4
  row_4 val w =
      refl ⊗ refl ⊗ refl ⊗ refl ⊗ refl ⊗ refl ⊗ refl ⊗ refl ⊗ refl ⊗ refl ⊗ refl ⊗ refl ⊗ refl
      ⊗ refl ⊗ refl ⊗ refl ⊗ refl ⊗ refl ⊗ refl ⊗ refl ⊗ refl ⊗ refl ⊗ refl ⊗ refl ⊗ refl ⊗ refl
      ⊗ refl ⊗ refl ⊗ refl ⊗ refl ⊗ refl ⊗ refl ⊗ tt

  row_5 : (val : ℕ) (w : W) → Each (Agrees val w) 160 32
  unfolding standard standard_5
  row_5 val w =
      refl ⊗ refl ⊗ refl ⊗ refl ⊗ refl ⊗ refl ⊗ refl ⊗ refl ⊗ refl ⊗ refl ⊗ refl ⊗ refl ⊗ refl
      ⊗ refl ⊗ refl ⊗ refl ⊗ refl ⊗ refl ⊗ refl ⊗ refl ⊗ refl ⊗ refl ⊗ refl ⊗ refl ⊗ refl ⊗ refl
      ⊗ refl ⊗ refl ⊗ refl ⊗ refl ⊗ refl ⊗ refl ⊗ tt

  row_6 : (val : ℕ) (w : W) → Each (Agrees val w) 192 32
  unfolding standard standard_6
  row_6 val w =
      known-branch _ _ _
      ⊗ refl
      ⊗ known-branch _ _ _
      ⊗ refl
      ⊗ known-branch _ _ _
      ⊗ refl
      ⊗ refl
      ⊗ refl
      ⊗ known-branch _ _ _
      ⊗ refl
      ⊗ known-branch _ _ _
      ⊗ refl
      ⊗ known-branch _ _ _
      ⊗ refl
      ⊗ refl
      ⊗ refl
      ⊗ known-branch _ _ _
      ⊗ refl
      ⊗ known-branch _ _ _
      ⊗ refl
      ⊗ known-branch _ _ _
      ⊗ refl
      ⊗ refl
      ⊗ refl
      ⊗ known-branch _ _ _
      ⊗ refl
      ⊗ known-branch _ _ _
      ⊗ refl
      ⊗ known-branch _ _ _
      ⊗ refl
      ⊗ refl
      ⊗ refl
      ⊗ tt

  row_7 : (val : ℕ) (w : W) → Each (Agrees val w) 224 32
  unfolding standard standard_7
  row_7 val w =
      refl ⊗ refl ⊗ refl ⊗ refl ⊗ refl ⊗ refl ⊗ refl ⊗ refl ⊗ refl ⊗ refl ⊗ refl ⊗ refl ⊗ refl
      ⊗ refl ⊗ refl ⊗ refl ⊗ refl ⊗ refl ⊗ refl ⊗ refl ⊗ refl ⊗ refl ⊗ refl ⊗ refl ⊗ refl ⊗ refl
      ⊗ refl ⊗ refl ⊗ refl ⊗ refl ⊗ refl ⊗ refl ⊗ tt

  standard-assigned : (inst val : ℕ) (w : W) → inst < 256 → Agrees val w inst
  standard-assigned inst val w h = elim (dec_lt inst 128) [
    | yes lower ↦ elim (dec_lt inst 64) [
      | yes lowest ↦ elim (dec_lt inst 32) [
        | yes first ↦ each (Agrees val w) 0 32 inst (row_0 val w) (omega arith) (omega arith)
        | no second ↦ each (Agrees val w) 32 32 inst (row_1 val w) (omega arith) (omega arith)
      ]
      | no middle ↦ elim (dec_lt inst 96) [
        | yes first ↦ each (Agrees val w) 64 32 inst (row_2 val w) (omega arith) (omega arith)
        | no second ↦ each (Agrees val w) 96 32 inst (row_3 val w) (omega arith) (omega arith)
      ]
    ]
    | no upper ↦ elim (dec_lt inst 192) [
      | yes middle ↦ elim (dec_lt inst 160) [
        | yes first ↦ each (Agrees val w) 128 32 inst (row_4 val w) (omega arith) (omega arith)
        | no second ↦ each (Agrees val w) 160 32 inst (row_5 val w) (omega arith) (omega arith)
      ]
      | no highest ↦ elim (dec_lt inst 224) [
        | yes first ↦ each (Agrees val w) 192 32 inst (row_6 val w) (omega arith) (omega arith)
        | no second ↦ each (Agrees val w) 224 32 inst (row_7 val w) (omega arith) (omega arith)
      ]
    ]
  ]

  -- `decode` returns for exactly the opcodes that its table has a length for, but the prefix 0xCB:
  -- the table and the switch agree, and every other opcode ends the program.
  pub decode_standard-assigned :
      (inst : ℕ) (w : W) → inst < 256 → returns (decode_standard b inst w) ≡ is_assigned inst
  unfolding decode_standard
  decode_standard-assigned inst w h =
      let arg = operand b inst w in
      returns-conclude (get_or standard_cycles inst 0) (false_branch_cycle_count inst)
        (standard b inst arg.0 arg.1)
      ∙ standard-assigned inst arg.0 arg.1 h
