-- ===== src/Util/Bit.antt =====
-- gameboy/include/gameboy/util/mathutil.h, namespace bit. The bit index is below 32; the result of
-- a template at a narrower type `T` is cut to that type where the code stores it.
pub mod Laws
use gameboi.Base.{ℕ, Bool, ◌==◌, ◌-◌, ◌^◌, bit_and, bit_or, bit_xor, if◌then◌else◌, shl}

abbrev pub from_bool : Bool → ℕ
from_bool b = if b then 1 else 0

unfoldable pub test : ℕ → ℕ → Bool
test n bit = bit_and n (shl 1 bit) == shl 1 bit

unfoldable pub set : ℕ → ℕ → ℕ
set n bit = bit_or n (shl 1 bit)

-- `~` is the complement in `uint32_t`.
unfoldable pub reset : ℕ → ℕ → ℕ
reset n bit = bit_and n (2 ^ 32 - 1 - shl 1 bit)

unfoldable pub flip : ℕ → ℕ → ℕ
flip n bit = bit_xor n (shl 1 bit)

unfoldable pub extract : ℕ → ℕ → ℕ
unfolding test
extract value bit = from_bool (test value bit)
