-- ===== src/Base/Bits.antt =====
-- `&`, `|` and `^` as arithmetic, at every width: masks, fields, single bits and bounds.
mod Lowest
use Lowest.{bit_xor_parity}
pub use Lowest.{bit_and_lowest, bit_or_lowest}
use Prim.Native.Nat.{ℕ, zero, suc, ◌+◌, ◌-◌, ◌*◌, ◌/◌, ◌%◌, ◌^◌, ◌≤◌, ◌<◌}
use Prim.Native.Nat.{bit_and, bit_or, bit_xor, bit_and-bitwise, bit_or-bitwise, bit_xor-bitwise}
use mathlib.Core.Path.{◌≡◌, refl, ap, sym}
use mathlib.Core.Bool.{Bool, true, ◌&&◌}
use native.Mathlib.Decide.{dec_lt}
use native.Mathlib.Nat.{pow-suc, pow-succ', one-le-pow, div-div-eq-div-mul}
use native.Mathlib.Omega.{arith}

bit_and_zero_fuel : (n a : ℕ) → a ≤ n → bit_and a 0 ≡ 0
bit_and_zero_fuel n zero h = refl
bit_and_zero_fuel zero (suc a) h = absurd (omega arith)
bit_and_zero_fuel (suc n) (suc a) h =
    omega (arith, bit_and_lowest (suc a) 0, bit_and_zero_fuel n (suc a / 2) (omega arith))

pub bit_and_zero : (a : ℕ) → bit_and a 0 ≡ 0
bit_and_zero a = bit_and_zero_fuel a a (omega arith)

bit_or_zero_fuel : (n a : ℕ) → a ≤ n → bit_or a 0 ≡ a
bit_or_zero_fuel n zero h = refl
bit_or_zero_fuel zero (suc a) h = absurd (omega arith)
bit_or_zero_fuel (suc n) (suc a) h =
    omega (arith, bit_or_lowest (suc a) 0, bit_or_zero_fuel n (suc a / 2) (omega arith))

pub bit_or_zero : (a : ℕ) → bit_or a 0 ≡ a
bit_or_zero a = bit_or_zero_fuel a a (omega arith)

pub zero-bit_or : (a : ℕ) → bit_or 0 a ≡ a
zero-bit_or a = bit_or-bitwise 0 a

pub zero-bit_and : (a : ℕ) → bit_and 0 a ≡ 0
zero-bit_and a = bit_and-bitwise 0 a

-- Both operations work on the high and the low digits apart.
halve : (k q r : ℕ) → (q * 2 ^ suc k + r) / 2 ≡ q * 2 ^ k + r / 2
halve k q r = omega (arith, ap (λ (t : ℕ). q * t) (pow-suc 2 k))

low_digit : (k q r : ℕ) → (q * 2 ^ suc k + r) % 2 ≡ r % 2
low_digit k q r = omega (arith, ap (λ (t : ℕ). q * t) (pow-suc 2 k))

pub bit_and_split :
    (k q r p s : ℕ)
    → r < 2 ^ k
    → s < 2 ^ k
    → bit_and (q * 2 ^ k + r) (p * 2 ^ k + s) ≡ bit_and q p * 2 ^ k + bit_and r s
bit_and_split zero q r p s hr hs = ground (arith, bit_and_zero 0)
bit_and_split (suc k) q r p s hr hs = ground (
  arith,
  bit_and_lowest (q * 2 ^ suc k + r) (p * 2 ^ suc k + s),
  bit_and_lowest r s,
  halve k q r,
  halve k p s,
  low_digit k q r,
  low_digit k p s,
  pow-suc 2 k,
  ap (λ (t : ℕ). bit_and q p * t) (pow-suc 2 k),
  bit_and_split k q (r / 2) p (s / 2),
)

pub bit_or_split :
    (k q r p s : ℕ)
    → r < 2 ^ k
    → s < 2 ^ k
    → bit_or (q * 2 ^ k + r) (p * 2 ^ k + s) ≡ bit_or q p * 2 ^ k + bit_or r s
bit_or_split zero q r p s hr hs = ground (arith, bit_or_zero 0)
bit_or_split (suc k) q r p s hr hs = ground (
  arith,
  bit_or_lowest (q * 2 ^ suc k + r) (p * 2 ^ suc k + s),
  bit_or_lowest r s,
  halve k q r,
  halve k p s,
  low_digit k q r,
  low_digit k p s,
  pow-suc 2 k,
  ap (λ (t : ℕ). bit_or q p * t) (pow-suc 2 k),
  bit_or_split k q (r / 2) p (s / 2),
)

-- `(q << k) | r` is a sum where `r` fits `k` bits.
pub bit_or_fields : (k q r : ℕ) → r < 2 ^ k → bit_or (q * 2 ^ k) r ≡ q * 2 ^ k + r
bit_or_fields k q r h =
    ground (arith, one-le-pow k 2, bit_or_split k q 0 0 r, bit_or_zero q, zero-bit_or r)

-- The bits of `m` and those outside it make up a number below `2 ^ k`.
pub bit_and_not : (k a m : ℕ) → a < 2 ^ k → m < 2 ^ k → bit_and a (2 ^ k - 1 - m) + bit_and a m ≡ a
bit_and_not zero a m ha hm = ground (arith, zero-bit_and 0)
bit_and_not (suc k) a m ha hm = ground (
  arith,
  bit_and_lowest a (2 ^ suc k - 1 - m),
  bit_and_lowest a m,
  pow-suc 2 k,
  one-le-pow k 2,
  bit_and_not k (a / 2) (m / 2),
)

bit_and_ones : (k a : ℕ) → a < 2 ^ k → bit_and a (2 ^ k - 1) ≡ a
bit_and_ones k a h =
    ground (arith, bit_and_not k a 0 h (omega (arith, one-le-pow k 2)), bit_and_zero a)

-- A mask of `k` low bits is the remainder by `2 ^ k`.
pub bit_and_mask : (k a : ℕ) → bit_and a (2 ^ k - 1) ≡ a % 2 ^ k
bit_and_mask k a = ground (
  arith,
  one-le-pow k 2,
  bit_and_split k (a / 2 ^ k) (a % 2 ^ k) 0 (2 ^ k - 1),
  bit_and_zero (a / 2 ^ k),
  bit_and_ones k (a % 2 ^ k),
)

-- The masks that the code writes.
pub mask_0f : (a : ℕ) → bit_and a 0x0F ≡ a % 16
mask_0f a = bit_and_mask 4 a

pub mask_ff : (a : ℕ) → bit_and a 0xFF ≡ a % 256
mask_ff a = bit_and_mask 8 a

pub mask_ffff : (a : ℕ) → bit_and a 0xFFFF ≡ a % 65536
mask_ffff a = bit_and_mask 16 a

bit_and_one : (a : ℕ) → bit_and a 1 ≡ a % 2
bit_and_one a = bit_and_mask 1 a

bit_or_one : (a : ℕ) → bit_or a 1 ≡ a + (1 - a % 2)
bit_or_one a = omega (arith, bit_or_lowest a 1, bit_or_zero (a / 2))

-- `a & (1 << k)` is the bit `k` of `a`, in its place.
pub bit_and_bit : (k a : ℕ) → bit_and a (2 ^ k) ≡ a / 2 ^ k % 2 * 2 ^ k
bit_and_bit k a = ground (
  arith,
  one-le-pow k 2,
  bit_and_split k (a / 2 ^ k) (a % 2 ^ k) 1 0,
  bit_and_one (a / 2 ^ k),
  bit_and_zero (a % 2 ^ k),
)

distribute : (q d n : ℕ) → (q + d) * n ≡ q * n + d * n
distribute q d n = omega arith

-- `a | (1 << k)` adds that bit where it is missing.
pub bit_or_bit : (k a : ℕ) → bit_or a (2 ^ k) ≡ a + (1 - a / 2 ^ k % 2) * 2 ^ k
bit_or_bit k a = ground (
  arith,
  one-le-pow k 2,
  bit_or_split k (a / 2 ^ k) (a % 2 ^ k) 1 0,
  bit_or_one (a / 2 ^ k),
  bit_or_zero (a % 2 ^ k),
  distribute (a / 2 ^ k) (1 - a / 2 ^ k % 2) (2 ^ k),
)

-- `a & ~(1 << k)` takes it away where it is there.
pub bit_and_clear :
    (w k a : ℕ)
    → a < 2 ^ w
    → 2 ^ k < 2 ^ w
    → bit_and a (2 ^ w - 1 - 2 ^ k) ≡ a - a / 2 ^ k % 2 * 2 ^ k
bit_and_clear w k a h hk = omega (arith, bit_and_not w a (2 ^ k) h hk, bit_and_bit k a)

halve_first : (k a : ℕ) → a / 2 ^ suc k ≡ a / 2 / 2 ^ k
halve_first k a = rw pow-succ' (sym (div-div-eq-div-mul a 2 (2 ^ k)))

halve_xor : (a b : ℕ) → bit_xor a b / 2 ≡ bit_xor (a / 2) (b / 2)
halve_xor a b = omega (arith, bit_xor_parity a b)

-- Bit `k` of an exclusive or is the parity of the two bits.
pub bit_xor_bit : (k a b : ℕ) → bit_xor a b / 2 ^ k % 2 ≡ (a / 2 ^ k + b / 2 ^ k) % 2
bit_xor_bit zero a b = omega (arith, bit_xor_parity a b)
bit_xor_bit (suc k) a b =
    rw (halve_first k (bit_xor a b), halve_first k a, halve_first k b)
      (rw (halve_xor a b) (bit_xor_bit k (a / 2) (b / 2)))

bit_and-le_fuel : (n a m : ℕ) → m ≤ n → bit_and a m ≤ m
bit_and-le_fuel zero a m h = ground (arith, bit_and_zero a)
bit_and-le_fuel (suc n) a m h =
    ground (arith, bit_and_lowest a m, bit_and-le_fuel n (a / 2) (m / 2), bit_and_zero a)

-- `&` gives no more than either side, `|` stays within the width of both.
pub bit_and-le_right : (a m : ℕ) → bit_and a m ≤ m
bit_and-le_right a m = bit_and-le_fuel m a m (omega arith)

pub bit_or-lt : (k a b : ℕ) → a < 2 ^ k → b < 2 ^ k → bit_or a b < 2 ^ k
bit_or-lt zero a b ha hb = ground (arith, bit_or_zero 0)
bit_or-lt (suc k) a b ha hb = omega (
  arith,
  bit_or_lowest a b,
  pow-suc 2 k,
  bit_or-lt k (a / 2) (b / 2) (omega (arith, pow-suc 2 k)) (omega (arith, pow-suc 2 k)),
)

pub bit_xor-lt : (k a b : ℕ) → a < 2 ^ k → b < 2 ^ k → bit_xor a b < 2 ^ k
bit_xor-lt zero a b ha hb = ground (arith, bit_xor-bitwise 0 0)
bit_xor-lt (suc k) a b ha hb = omega (
  arith,
  bit_xor_parity a b,
  pow-suc 2 k,
  bit_xor-lt k (a / 2) (b / 2) (omega (arith, pow-suc 2 k)) (omega (arith, pow-suc 2 k)),
)

-- A table of truth values, checked from its upper end down to 0.
unfoldable pub all_below : ℕ → (ℕ → Bool) → Bool
all_below (suc last) row = row last && all_below last row
all_below zero row = true

-- A row of a table that checks is true.
pub all_below_sound :
    (rows : ℕ) (row : ℕ → Bool) (index : ℕ)
    → all_below rows row ≡ true
    → index < rows
    → row index ≡ true
unfolding all_below
all_below_sound (suc last) row index checks inside = elim (dec_lt index last) [
  | yes before ↦ all_below_sound last row index (ground arith) before
  | no at_end ↦ let here : index ≡ last = omega arith in rw here (ground arith)
]
all_below_sound zero row index checks inside = absurd (omega arith)
