-- ===== src/Cpu/State/Flags.antt =====
-- `set_flag`, `reset_flag` and `test_flag` on a processor whose flags are given as Booleans.
use gameboi.Base.{ℕ, ◌<◌, ◌≡◌, refl, sym, ap, arith}
use gameboi.Base.{Bool, true, false, ◌||◌}
use gameboi.Base.{bit_and_mask, bit_and_bit}
use gameboi.Util.Mask
use gameboi.Cpu.Flag
use gameboi.Cpu.State.{Cpu, set_low, set_acc, set_flag, reset_flag, test_flag, set_flag_if}
use gameboi.Cpu.State.Laws.{encode, encode-encode, bit_and-encode, bit_or-encode, bit, encode-bits}

-- The processor with these flags; the low nibble of the flag register stays.
unfoldable pub with_flags : Bool → Bool → Bool → Bool → Cpu → Cpu
with_flags z n h c cpu = set_low (encode z n h c cpu.a_f.low) cpu

pub with_flags_twice :
    (z n h c z' n' h' c' : Bool) (cpu : Cpu)
    → with_flags z n h c (with_flags z' n' h' c' cpu) ≡ with_flags z n h c cpu
unfolding with_flags
with_flags_twice z n h c z' n' h' c' cpu =
    ap (λ l. set_low l cpu) (encode-encode z n h c z' n' h' c' cpu.a_f.low)

-- A processor has the flags that it has.
pub with_flags_self :
    (cpu : Cpu)
    → cpu.a_f.low < 256
    → with_flags (bit 7 cpu.a_f.low) (bit 6 cpu.a_f.low) (bit 5 cpu.a_f.low) (bit 4 cpu.a_f.low) cpu
      ≡ cpu
unfolding with_flags
with_flags_self cpu h = ap (λ l. set_low l cpu) (encode-bits cpu.a_f.low h)

pub reset-all : (cpu : Cpu) → reset_flag Flag.all cpu ≡ with_flags false false false false cpu
unfolding reset_flag with_flags encode
reset-all cpu = ap (λ l. set_low l cpu) (omega (arith, bit_and_mask 4 cpu.a_f.low))

module _ (z n h c : Bool) (cpu : Cpu) where
  pub set-carry : set_flag Flag.carry (with_flags z n h c cpu) ≡ with_flags z n h true cpu
  unfolding set_flag with_flags encode
  set-carry = ap (λ l. set_low l cpu) (bit_or-encode z n h c false false false true cpu.a_f.low)

  pub set-half_carry : set_flag Flag.half_carry (with_flags z n h c cpu) ≡ with_flags z n true c cpu
  unfolding set_flag with_flags encode
  set-half_carry =
      ap (λ l. set_low l cpu) (bit_or-encode z n h c false false true false cpu.a_f.low)

  pub set-negative : set_flag Flag.negative (with_flags z n h c cpu) ≡ with_flags z true h c cpu
  unfolding set_flag with_flags encode
  set-negative = ap (λ l. set_low l cpu) (bit_or-encode z n h c false true false false cpu.a_f.low)

  pub set-zero : set_flag Flag.zero (with_flags z n h c cpu) ≡ with_flags true n h c cpu
  unfolding set_flag with_flags encode
  set-zero = ap (λ l. set_low l cpu) (bit_or-encode z n h c true false false false cpu.a_f.low)

  -- negative | half_carry
  pub set-negative-half_carry :
      set_flag 0x60 (with_flags z n h c cpu) ≡ with_flags z true true c cpu
  unfolding set_flag with_flags encode
  set-negative-half_carry =
      ap (λ l. set_low l cpu) (bit_or-encode z n h c false true true false cpu.a_f.low)

  pub reset-zero : reset_flag Flag.zero (with_flags z n h c cpu) ≡ with_flags false n h c cpu
  unfolding reset_flag with_flags encode
  reset-zero = ap (λ l. set_low l cpu) (bit_and-encode z n h c false true true true cpu.a_f.low)

  -- negative | zero | half_carry
  pub reset_all_but_carry :
      reset_flag 0xE0 (with_flags z n h c cpu) ≡ with_flags false false false c cpu
  unfolding reset_flag with_flags encode
  reset_all_but_carry =
      ap (λ l. set_low l cpu) (bit_and-encode z n h c false false false true cpu.a_f.low)

  -- half_carry | zero
  pub reset-half_carry-zero :
      reset_flag 0xA0 (with_flags z n h c cpu) ≡ with_flags false n false c cpu
  unfolding reset_flag with_flags encode
  reset-half_carry-zero =
      ap (λ l. set_low l cpu) (bit_and-encode z n h c false true false true cpu.a_f.low)

  -- negative | half_carry | carry
  pub reset_all_but_zero :
      reset_flag 0x70 (with_flags z n h c cpu) ≡ with_flags z false false false cpu
  unfolding reset_flag with_flags encode
  reset_all_but_zero =
      ap (λ l. set_low l cpu) (bit_and-encode z n h c true false false false cpu.a_f.low)

  -- negative | zero
  pub reset-negative-zero :
      reset_flag 0xC0 (with_flags z n h c cpu) ≡ with_flags false false h c cpu
  unfolding reset_flag with_flags encode
  reset-negative-zero =
      ap (λ l. set_low l cpu) (bit_and-encode z n h c false false true true cpu.a_f.low)

  pub test-carry : test_flag Flag.carry (with_flags z n h c cpu) ≡ c
  unfolding test_flag with_flags Mask.test encode
  test-carry = ground (arith, bit_and_bit 4 (encode z n h c cpu.a_f.low))

  pub test-half_carry : test_flag Flag.half_carry (with_flags z n h c cpu) ≡ h
  unfolding test_flag with_flags Mask.test encode
  test-half_carry = ground (arith, bit_and_bit 5 (encode z n h c cpu.a_f.low))

  pub test-negative : test_flag Flag.negative (with_flags z n h c cpu) ≡ n
  unfolding test_flag with_flags Mask.test encode
  test-negative = ground (arith, bit_and_bit 6 (encode z n h c cpu.a_f.low))

  pub test-zero : test_flag Flag.zero (with_flags z n h c cpu) ≡ z
  unfolding test_flag with_flags Mask.test encode
  test-zero = ground (arith, bit_and_bit 7 (encode z n h c cpu.a_f.low))

  pub set_acc-with_flags :
      (v : ℕ) → set_acc v (with_flags z n h c cpu) ≡ with_flags z n h c (set_acc v cpu)
  unfolding with_flags
  set_acc-with_flags v = refl

  pub acc-with_flags : (with_flags z n h c cpu).a_f.high ≡ cpu.a_f.high
  unfolding with_flags
  acc-with_flags = refl

-- A flag that was clear is set exactly when the test holds.
pub set_if-carry :
    (b z n h : Bool) (cpu : Cpu)
    → set_flag_if b Flag.carry (with_flags z n h false cpu) ≡ with_flags z n h b cpu
unfolding set_flag_if
set_if-carry true z n h cpu = set-carry z n h false cpu
set_if-carry false z n h cpu = refl

pub set_if-half_carry :
    (b z n c : Bool) (cpu : Cpu)
    → set_flag_if b Flag.half_carry (with_flags z n false c cpu) ≡ with_flags z n b c cpu
unfolding set_flag_if
set_if-half_carry true z n c cpu = set-half_carry z n false c cpu
set_if-half_carry false z n c cpu = refl

pub set_if-zero :
    (b n h c : Bool) (cpu : Cpu)
    → set_flag_if b Flag.zero (with_flags false n h c cpu) ≡ with_flags b n h c cpu
unfolding set_flag_if
set_if-zero true n h c cpu = set-zero false n h c cpu
set_if-zero false n h c cpu = refl

-- The decimal adjustment keeps a carry that was set before.
pub set_if-carry_kept :
    (b z n h c : Bool) (cpu : Cpu)
    → set_flag_if b Flag.carry (with_flags z n h c cpu) ≡ with_flags z n h (b || c) cpu
unfolding set_flag_if
set_if-carry_kept true z n h c cpu = set-carry z n h c cpu
set_if-carry_kept false z n h c cpu = refl

pub ruleset flag_laws = (
  set-carry, set-half_carry, set-negative, set-zero, set_if-carry, set_if-half_carry, set_if-zero,
  set_acc-with_flags, acc-with_flags,
)

pub test-carry-bit : (cpu : Cpu) → test_flag Flag.carry cpu ≡ bit 4 cpu.a_f.low
unfolding test_flag Mask.test bit
test-carry-bit cpu = ground (arith, bit_and_bit 4 cpu.a_f.low)

pub test-zero-bit : (cpu : Cpu) → test_flag Flag.zero cpu ≡ bit 7 cpu.a_f.low
unfolding test_flag Mask.test bit
test-zero-bit cpu = ground (arith, bit_and_bit 7 cpu.a_f.low)

-- A processor has the flags that it has.
pub flags_of :
    (cpu : Cpu)
    → cpu.a_f.low < 256
    → cpu
      ≡ with_flags
          (test_flag Flag.zero cpu)
          (bit 6 cpu.a_f.low)
          (bit 5 cpu.a_f.low)
          (test_flag Flag.carry cpu)
          cpu
flags_of cpu h = rw (test-zero-bit, test-carry-bit) (sym (with_flags_self cpu h))
