-- ===== src/Base/Int.antt =====
-- Signed integers over the native numbers, with C++'s division, which rounds towards 0.
use Prim.Native.Nat.{ℕ, ◌+◌, ◌-◌, ◌/◌, ◌%◌}
use gameboi.Base.Tests.{leb, ◌==◌, if◌then◌else◌}

-- `negsuc n` is -(n + 1).
pub data ℤ : Type 0 where
  pos : ℕ → ℤ
  negsuc : ℕ → ℤ

abbrev pub neg : ℕ → ℤ
neg n = if n == 0 then pos 0 else negsuc (n - 1)

-- a - b, as an integer.
abbrev pub sub_ℕ : ℕ → ℕ → ℤ
sub_ℕ a b = if leb b a then pos (a - b) else negsuc (b - a - 1)

abbrev pub tdiv : ℤ → ℕ → ℤ
tdiv (pos n) k = pos (n / k)
tdiv (negsuc n) k = neg ((n + 1) / k)

abbrev pub tmod : ℤ → ℕ → ℤ
tmod (pos n) k = pos (n % k)
tmod (negsuc n) k = neg ((n + 1) % k)

-- A word of modulus `m` plus an integer.
abbrev pub add_wrap : ℕ → ℕ → ℤ → ℕ
add_wrap m x (pos n) = (x + n) % m
add_wrap m x (negsuc n) = (x + (m - (n + 1) % m)) % m
