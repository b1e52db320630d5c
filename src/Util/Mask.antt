-- ===== src/Util/Mask.antt =====
-- gameboy/include/gameboy/util/mathutil.h, namespace mask.
pub mod Laws
use gameboi.Base.{ℕ, Bool, ◌==◌, bit_and}

-- `(n & m) == m`, where `m` is a `uint32_t` and `n` is converted to one.
unfoldable pub test : ℕ → ℕ → Bool
test n m = bit_and n m == m
