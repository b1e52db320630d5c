-- ===== src/Alu/Adjust/Offset.antt =====
-- `add_to_stack_pointer` adds a signed byte; its carries are those of the unsigned low byte.
use gameboi.Base.{
  ℕ, ◌+◌, ◌-◌, ◌/◌, ◌%◌, ◌^◌, ◌<◌, ◌≡◌, false, ◌==◌, ltb, leb, arith, if◌then◌else◌, bit_xor,
  bit_xor_bit, mask_ffff, u32, sign_extend8,
}
use gameboi.Util.Mask.Laws
use gameboi.Register16.{IsBytes, value, assign}
use gameboi.Register16.Laws.{value-lt}
use gameboi.Cpu.State.{Cpu}
use gameboi.Cpu.State.Flags.{with_flags, flag_laws, reset-all}
use gameboi.Alu.Adjust.{add_to_stack_pointer}

-- Bit `k` of `a ^ b ^ (a + b)` is the carry into bit `k`.
pub carry_into :
    (k a b s : ℕ) → bit_xor (bit_xor a b) s / 2 ^ k % 2 ≡ (a / 2 ^ k + b / 2 ^ k + s / 2 ^ k) % 2
carry_into k a b s = ground (arith, bit_xor_bit k (bit_xor a b) s, bit_xor_bit k a b)

half_carry_of :
    (sp imm : ℕ)
    → sp < 65536
    → imm < 256
    → let e = sign_extend8 imm in
      ((sp / 16 + e / 16 + (u32 (sp + e) % 65536) / 16) % 2 == 1) ≡ leb 16 (sp % 16 + imm % 16)
half_carry_of sp imm hs hi = ground arith

carry_of :
    (sp imm : ℕ)
    → sp < 65536
    → imm < 256
    → let e = sign_extend8 imm in
      ((sp / 256 + e / 256 + (u32 (sp + e) % 65536) / 256) % 2 == 1) ≡ leb 256 (sp % 256 + imm)
carry_of sp imm hs hi = ground arith

moved_of :
    (sp imm : ℕ)
    → sp < 65536
    → imm < 256
    → u32 (sp + sign_extend8 imm) % 65536
      ≡ (if ltb imm 128 then (sp + imm) % 65536 else (sp + 65536 + imm - 256) % 65536)
moved_of sp imm hs hi = ground arith

-- For a byte added as a signed number, the stack pointer moves by -128 to 127 modulo 2 ^ 16, half
-- carry and carry are those of adding the byte unsigned to the lower byte, and zero and negative
-- are cleared.
add_to_stack_pointer_lem :
    (imm : ℕ) (c : Cpu)
    → IsBytes c.stack_pointer
    → imm < 256
    → let sp = value c.stack_pointer in
      let moved = if ltb imm 128 then (sp + imm) % 65536 else (sp + 65536 + imm - 256) % 65536 in
      let c' = with_flags false false (leb 16 (sp % 16 + imm % 16)) (leb 256 (sp % 256 + imm)) c in
      add_to_stack_pointer imm c ≡ record c' { stack_pointer = assign moved }
unfolding add_to_stack_pointer
add_to_stack_pointer_lem imm c hs hi =
    simp (flag_laws, reset-all, Laws.test_lem _ 8, Laws.test_lem _ 4, mask_ffff, carry_into)
      (ground (
        arith,
        half_carry_of (value c.stack_pointer) imm (value-lt hs) hi,
        carry_of (value c.stack_pointer) imm (value-lt hs) hi,
        moved_of (value c.stack_pointer) imm (value-lt hs) hi,
      ))
