-- ===== src/Alu/Bits/Laws.antt =====
-- `set` and `reset` change the one bit that they name, and `test` reads it.
use gameboi.Base.{ℕ, ◌<◌, ◌≡◌, ◌∙◌, ap, refl, Bool, true, false, not, ◌&&◌, ◌||◌, ◌==◌, arith}
use gameboi.Base.{all_below, all_below_sound}
use gameboi.Util.Bit
use gameboi.Cpu.Flag
use gameboi.Cpu.State.{Cpu, test_flag}
use gameboi.Cpu.State.Flags.{with_flags, flag_laws, flags_of, reset-negative-zero}
use gameboi.Alu.Bits.{test, set, reset}

abbrev same : Bool → Bool → Bool
same true b = b
same false b = not b

same_sound : (a b : Bool) → same a b ≡ true → a ≡ b
same_sound a b h = ground arith

set_table :
    all_below 8 (λ k. all_below 8 (λ j. all_below 256 (λ v.
      same (Bit.test (set v k) j) (k == j || Bit.test v j)
      && same (Bit.test (reset v k) j) (not (k == j) && Bit.test v j))))
    ≡ true
unfolding all_below set reset Bit.test Bit.set Bit.reset
set_table = refl

bits_at :
    (v k j : ℕ)
    → v < 256
    → k < 8
    → j < 8
    → (same (Bit.test (set v k) j) (k == j || Bit.test v j)
        && same (Bit.test (reset v k) j) (not (k == j) && Bit.test v j))
      ≡ true
bits_at v k j hv hk hj =
    all_below_sound 256 _ v (all_below_sound 8 _ j (all_below_sound 8 _ k set_table hk) hj) hv

-- Of the eight bits of a byte, setting bit `k` makes that one 1 and keeps the others, and resetting
-- it makes that one 0 and keeps the others.
test-set-reset :
    (v k j : ℕ)
    → v < 256
    → k < 8
    → j < 8
    → (Bit.test (set v k) j ≡ (k == j || Bit.test v j))
      × (Bit.test (reset v k) j ≡ (not (k == j) && Bit.test v j))
test-set-reset v k j hv hk hj = ground (arith, bits_at v k j hv hk hj)

test_flags :
    (v bit : ℕ) (z n h k : Bool) (c : Cpu)
    → test v bit (with_flags z n h k c) ≡ with_flags (not (Bit.test v bit)) false true k c
unfolding test
test_flags v bit z n h k c = simp (flag_laws, reset-negative-zero)

-- `test` shows the complement of the bit in the zero flag and keeps the carry.
pub test_lem :
    (v bit : ℕ) (c : Cpu)
    → c.a_f.low < 256
    → test v bit c ≡ with_flags (not (Bit.test v bit)) false true (test_flag Flag.carry c) c
test_lem v bit c h = ap (test v bit) (flags_of c h) ∙ test_flags v bit _ _ _ _ c
