-- ===== src/Base/Word.antt =====
-- Fixed-width words as native numbers: casts cut off, subtraction adds the modulus first, and a
-- signed word is its two's complement pattern.
use Prim.Native.Nat.{ℕ, ◌+◌, ◌-◌, ◌*◌, ◌/◌, ◌%◌, ◌^◌}
use mathlib.Core.Bool.{Bool, ◌&&◌, ◌||◌}
use gameboi.Base.Tests.{ltb, leb, if◌then◌else◌}

abbrev pub u8 : ℕ → ℕ
u8 n = n % 2 ^ 8

abbrev pub u16 : ℕ → ℕ
u16 n = n % 2 ^ 16

abbrev pub u32 : ℕ → ℕ
u32 n = n % 2 ^ 32

-- The difference of two patterns below the modulus.
abbrev pub sub8 : ℕ → ℕ → ℕ
sub8 a b = (a + 2 ^ 8 - b) % 2 ^ 8

abbrev pub sub16 : ℕ → ℕ → ℕ
sub16 a b = (a + 2 ^ 16 - b) % 2 ^ 16

abbrev pub sub32 : ℕ → ℕ → ℕ
sub32 a b = (a + 2 ^ 32 - b) % 2 ^ 32

abbrev pub shl : ℕ → ℕ → ℕ
shl x k = x * 2 ^ k

abbrev pub shr : ℕ → ℕ → ℕ
shr x k = x / 2 ^ k

-- `int8_t` to `int`: the pattern of the same number.
abbrev pub sign_extend8 : ℕ → ℕ
sign_extend8 b = if ltb b 128 then b else b + 2 ^ 32 - 2 ^ 8

-- Whether the pattern stands for a number below 0.
abbrev pub is_negative8 : ℕ → Bool
is_negative8 x = leb (2 ^ 7) x

abbrev pub is_negative16 : ℕ → Bool
is_negative16 x = leb (2 ^ 15) x

abbrev pub is_negative32 : ℕ → Bool
is_negative32 x = leb (2 ^ 31) x

abbrev pub is_positive8 : ℕ → Bool
is_positive8 x = ltb 0 x && ltb x (2 ^ 7)

-- The signed comparison `x < k` for a small `k`.
abbrev pub below8 : ℕ → ℕ → Bool
below8 x k = is_negative8 x || ltb x k
