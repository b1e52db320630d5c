-- ===== src/Util/Mask/Laws.antt =====
-- A mask of one bit tests that bit.
use gameboi.Base.{ℕ, ◌/◌, ◌%◌, ◌^◌, ◌≡◌, ◌==◌, arith, bit_and_bit}
use native.Mathlib.Nat.{one-le-pow}
use gameboi.Util.Mask.{test}

pub test_lem : (n k : ℕ) → test n (2 ^ k) ≡ (n / 2 ^ k % 2 == 1)
unfolding test
test_lem n k = ground (arith, bit_and_bit k n, one-le-pow k 2)
