-- ===== src/Base/Bits/Lowest.antt =====
-- The native bit operations stand for a recursion on binary digits with fuel. Here the fuel is
-- dropped: each operation has one equation, for the lowest digit.
use Prim.Native.Nat.{ℕ, zero, suc, ◌+◌, ◌*◌, ◌/◌, ◌%◌, ◌≤◌, ◌<◌, min, max}
use Prim.Native.Nat.{bit_and, bit_or, bit_xor, digits, bitwise, differ}
use Prim.Native.Nat.{bit_and-bitwise, bit_or-bitwise, bit_xor-bitwise}
use mathlib.Core.Path.{◌≡◌, refl}
use native.Mathlib.Omega.{arith}

-- Any two amounts of fuel that cover the left number agree.
digits_agree :
    (z : ℕ → ℕ) (f : ℕ → ℕ → ℕ) (n m a b : ℕ) → a ≤ n → a ≤ m → digits z f n a b ≡ digits z f m a b
digits_agree z f zero zero a b h k = refl
digits_agree z f zero (suc m) zero b h k = refl
digits_agree z f zero (suc m) (suc a) b h k = absurd (omega arith)
digits_agree z f (suc n) zero zero b h k = refl
digits_agree z f (suc n) zero (suc a) b h k = absurd (omega arith)
digits_agree z f (suc n) (suc m) zero b h k = refl
digits_agree z f (suc n) (suc m) (suc a) b h k =
    let below : suc a / 2 ≤ n = omega arith in
    let below' : suc a / 2 ≤ m = omega arith in
    rw (digits_agree z f n m (suc a / 2) (b / 2) below below')

-- The equation for the lowest digit, for an operation that keeps its shape at 0.
bitwise_lowest :
    (z : ℕ → ℕ) (f : ℕ → ℕ → ℕ)
    → ((b : ℕ) → z b ≡ z (b / 2) * 2 + f 0 (b % 2))
    → (a b : ℕ) → bitwise z f a b ≡ bitwise z f (a / 2) (b / 2) * 2 + f (a % 2) (b % 2)
bitwise_lowest z f bottom zero b = bottom b
bitwise_lowest z f bottom (suc a) b =
    let fits : suc a / 2 ≤ a = omega arith in
    let least : suc a / 2 ≤ suc a / 2 = omega arith in
    rw (digits_agree z f a (suc a / 2) (suc a / 2) (b / 2) fits least)

pub bit_and_lowest : (a b : ℕ) → bit_and a b ≡ bit_and (a / 2) (b / 2) * 2 + min (a % 2) (b % 2)
bit_and_lowest a b = simp bit_and-bitwise (bitwise_lowest (λ _. 0) min (λ _. omega arith) a b)

pub bit_or_lowest : (a b : ℕ) → bit_or a b ≡ bit_or (a / 2) (b / 2) * 2 + max (a % 2) (b % 2)
bit_or_lowest a b = simp bit_or-bitwise (bitwise_lowest (λ c. c) max (λ c. omega arith) a b)

pub bit_xor_lowest : (a b : ℕ) → bit_xor a b ≡ bit_xor (a / 2) (b / 2) * 2 + differ (a % 2) (b % 2)
bit_xor_lowest a b = simp bit_xor-bitwise (bitwise_lowest (λ c. c) differ (λ c. omega arith) a b)

differ_digits : (a b : ℕ) → a < 2 → b < 2 → differ a b ≡ (a + b) % 2
differ_digits zero b h k = omega arith
differ_digits (suc zero) zero h k = refl
differ_digits (suc zero) (suc zero) h k = refl
differ_digits (suc zero) (suc (suc b)) h k = absurd (omega arith)
differ_digits (suc (suc a)) b h k = absurd (omega arith)

pub bit_xor_parity : (a b : ℕ) → bit_xor a b ≡ bit_xor (a / 2) (b / 2) * 2 + (a + b) % 2
bit_xor_parity a b =
    let ha : a % 2 < 2 = omega arith in
    let hb : b % 2 < 2 = omega arith in
    omega (arith, bit_xor_lowest a b, differ_digits (a % 2) (b % 2) ha hb)
