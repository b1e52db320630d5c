-- ===== src/Cpu/State/Laws.antt =====
-- The flag register as four Booleans and an unused low nibble, and what the flag operations do to
-- that view. The ALU's theorems are stated by it.
use gameboi.Base.{ℕ, ◌+◌, ◌*◌, ◌/◌, ◌%◌, ◌^◌, ◌<◌, ◌≡◌, refl, arith}
use gameboi.Base.{Bool, true, false, ◌==◌, ◌&&◌, ◌||◌, bit_and, bit_or}
use gameboi.Base.{bit_and_mask, bit_and_lowest, bit_or_lowest}
use gameboi.Base.{bit_and_split, bit_or_split, bit_or_zero}
use gameboi.Util.Bit.{from_bool}

-- The four flags as one digit of sixteen.
abbrev nibble : Bool → Bool → Bool → Bool → ℕ
nibble z n h c = ((from_bool z * 2 + from_bool n) * 2 + from_bool h) * 2 + from_bool c

-- The flag byte with the given bits and the low nibble of `f`.
unfoldable pub encode : Bool → Bool → Bool → Bool → ℕ → ℕ
encode z n h c f = nibble z n h c * 16 + f % 16

pub encode-lt : (z n h c : Bool) (f : ℕ) → encode z n h c f < 256
unfolding encode
encode-lt z n h c f = ground arith

pub encode-encode :
    (z n h c z' n' h' c' : Bool) (f : ℕ) → encode z n h c (encode z' n' h' c' f) ≡ encode z n h c f
unfolding encode
encode-encode z n h c z' n' h' c' f = omega arith

-- A mask acts on each flag apart.
and_digit :
    (x y : ℕ) (c d : Bool)
    → bit_and (x * 2 + from_bool c) (y * 2 + from_bool d) ≡ bit_and x y * 2 + from_bool (d && c)
and_digit x y c d = ground (arith, bit_and_lowest (x * 2 + from_bool c) (y * 2 + from_bool d))

or_digit :
    (x y : ℕ) (c d : Bool)
    → bit_or (x * 2 + from_bool c) (y * 2 + from_bool d) ≡ bit_or x y * 2 + from_bool (d || c)
or_digit x y c d = ground (arith, bit_or_lowest (x * 2 + from_bool c) (y * 2 + from_bool d))

and_bool : (c d : Bool) → bit_and (from_bool c) (from_bool d) ≡ from_bool (d && c)
and_bool true true = refl
and_bool true false = refl
and_bool false true = refl
and_bool false false = refl

or_bool : (c d : Bool) → bit_or (from_bool c) (from_bool d) ≡ from_bool (d || c)
or_bool true true = refl
or_bool true false = refl
or_bool false true = refl
or_bool false false = refl

bit_and-nibble :
    (z n h c z' n' h' c' : Bool)
    → bit_and (nibble z n h c) (nibble z' n' h' c') ≡ nibble (z' && z) (n' && n) (h' && h) (c' && c)
bit_and-nibble z n h c z' n' h' c' = simp (and_digit, and_bool)

bit_or-nibble :
    (z n h c z' n' h' c' : Bool)
    → bit_or (nibble z n h c) (nibble z' n' h' c') ≡ nibble (z' || z) (n' || n) (h' || h) (c' || c)
bit_or-nibble z n h c z' n' h' c' = simp (or_digit, or_bool)

pub bit_and-encode :
    (z n h c z' n' h' c' : Bool) (f : ℕ)
    → bit_and (encode z n h c f) (encode z' n' h' c' 15)
      ≡ encode (z' && z) (n' && n) (h' && h) (c' && c) f
unfolding encode
bit_and-encode z n h c z' n' h' c' f =
    rw
      (bit_and_split 4 (nibble z n h c) (f % 16) (nibble z' n' h' c') 15 (omega arith)
        (omega arith))
      (rw bit_and-nibble (omega (arith, bit_and_mask 4 (f % 16))))

pub bit_or-encode :
    (z n h c z' n' h' c' : Bool) (f : ℕ)
    → bit_or (encode z n h c f) (encode z' n' h' c' 0)
      ≡ encode (z' || z) (n' || n) (h' || h) (c' || c) f
unfolding encode
bit_or-encode z n h c z' n' h' c' f =
    rw (bit_or_split 4 (nibble z n h c) (f % 16) (nibble z' n' h' c') 0 (omega arith) (omega arith))
      (rw bit_or-nibble (omega (arith, bit_or_zero (f % 16))))

-- The flags of a byte.
unfoldable pub bit : ℕ → ℕ → Bool
bit k f = f / 2 ^ k % 2 == 1

pub encode-bits : (f : ℕ) → f < 256 → encode (bit 7 f) (bit 6 f) (bit 5 f) (bit 4 f) f ≡ f
unfolding encode bit
encode-bits f h = ground arith
