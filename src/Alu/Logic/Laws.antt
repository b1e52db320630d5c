-- ===== src/Alu/Logic/Laws.antt =====
-- The logical operations as equations of states.
use gameboi.Base.{
  ℕ, ◌+◌, ◌-◌, ◌*◌, ◌/◌, ◌%◌, ◌<◌, ◌≡◌, ap, ◌∙◌, Bool, true, false, ◌==◌, arith, bit_and, bit_or,
  bit_xor, bit_or_fields,
}
use gameboi.Cpu.Flag
use gameboi.Cpu.State.{Cpu, acc, set_acc, test_flag}
use gameboi.Cpu.State.Flags.{with_flags, flag_laws, reset-all, flags_of, set-negative-half_carry}
use gameboi.Alu.Logic.{logical_or, logical_and, logical_xor, complement, swap}

pub logical_or_lem :
    (v : ℕ) (c : Cpu)
    → let r = bit_or (acc c) v in
      logical_or v c ≡ with_flags (r == 0) false false false (set_acc r c)
unfolding logical_or
logical_or_lem v c = simp (flag_laws, reset-all)

pub logical_and_lem :
    (v : ℕ) (c : Cpu)
    → let r = bit_and (acc c) v in
      logical_and v c ≡ with_flags (r == 0) false true false (set_acc r c)
unfolding logical_and
logical_and_lem v c = simp (flag_laws, reset-all)

pub logical_xor_lem :
    (v : ℕ) (c : Cpu)
    → let r = bit_xor (acc c) v in
      logical_xor v c ≡ with_flags (r == 0) false false false (set_acc r c)
unfolding logical_xor
logical_xor_lem v c = simp (flag_laws, reset-all)

complement_flags :
    (z n h k : Bool) (c : Cpu)
    → complement (with_flags z n h k c) ≡ with_flags z true true k (set_acc (255 - acc c) c)
unfolding complement
complement_flags z n h k c = simp (flag_laws, set-negative-half_carry)

pub complement_lem :
    (c : Cpu)
    → c.a_f.low < 256
    → complement c
      ≡ with_flags
          (test_flag Flag.zero c)
          true
          true
          (test_flag Flag.carry c)
          (set_acc (255 - acc c) c)
complement_lem c h = ap complement (flags_of c h) ∙ complement_flags _ _ _ _ c

-- The nibbles change places; every flag is cleared but zero, which shows the result.
pub swap_lem :
    (v : ℕ) (c : Cpu)
    → v < 256
    → swap v c ≡ (v % 16 * 16 + v / 16, with_flags (v == 0) false false false c)
unfolding swap
swap_lem v c h =
    simp (flag_laws, reset-all, bit_or_fields 4 v (v / 16) (omega arith)) (ground arith)
