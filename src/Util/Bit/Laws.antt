-- ===== src/Util/Bit/Laws.antt =====
-- The single-bit operations as arithmetic on the number.
use gameboi.Base.{ℕ, ◌+◌, ◌-◌, ◌*◌, ◌/◌, ◌%◌, ◌^◌, ◌<◌, ◌≡◌, ◌==◌, arith}
use gameboi.Base.{bit_and_bit, bit_or_bit, bit_and_clear, bit_xor_bit}
use native.Mathlib.Nat.{one-le-pow, one-mul}
use gameboi.Util.Bit.{test, set, reset, flip, extract}

pub test_lem : (n k : ℕ) → test n k ≡ (n / 2 ^ k % 2 == 1)
unfolding test
test_lem n k = ground (arith, bit_and_bit k n, one-le-pow k 2)

pub extract_lem : (n k : ℕ) → extract n k ≡ n / 2 ^ k % 2
unfolding extract
extract_lem n k = ground (arith, bit_and_bit k n, one-le-pow k 2)

pub set_lem : (n k : ℕ) → set n k ≡ n + (1 - n / 2 ^ k % 2) * 2 ^ k
unfolding set
set_lem n k = ground (arith, bit_or_bit k n)

pub reset_lem : (n k : ℕ) → n < 2 ^ 32 → 2 ^ k < 2 ^ 32 → reset n k ≡ n - n / 2 ^ k % 2 * 2 ^ k
unfolding reset
reset_lem n k h hk = rw one-mul (bit_and_clear 32 k n h hk)

pub flip_bit : (n k j : ℕ) → flip n k / 2 ^ j % 2 ≡ (n / 2 ^ j + 2 ^ k / 2 ^ j) % 2
unfolding flip
flip_bit n k j = rw one-mul (bit_xor_bit j n (2 ^ k))
