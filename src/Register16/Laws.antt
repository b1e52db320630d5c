-- ===== src/Register16/Laws.antt =====
-- The register as one number: reading back what was assigned, and arithmetic modulo 2 ^ 16.
use gameboi.Base.{
  if◌then◌else◌, ltb, ℕ, ◌+◌, ◌-◌, ◌*◌, ◌/◌, ◌%◌, ◌^◌, ◌<◌, ◌≡◌, ◌∙◌, sym, ap, arith, bit_and_mask,
}
use gameboi.Util.Carry.Laws.{word_lem}
use gameboi.Register16.{
  Register16, IsBytes, value, assign, of_value, add_assign, sub_assign, add_assign_address8,
  increment, decrement,
}

pub value_lem : {r : Register16} → IsBytes r → value r ≡ r.high * 256 + r.low
unfolding value
value_lem {r} b = word_lem r.high r.low b.high_fits b.low_fits

pub value-lt : {r : Register16} → IsBytes r → value r < 65536
value-lt b = omega (arith, value_lem b)

pub assign_lem : (v : ℕ) → v < 65536 → assign v ≡ record { high = v / 256; low = v % 256 }
unfolding assign
assign_lem v h = ground (arith, bit_and_mask 8 (v / 256), bit_and_mask 8 v)

pub assign-IsBytes : (v : ℕ) → IsBytes (assign v)
unfolding assign
assign-IsBytes v = omega (arith, bit_and_mask 8 (v / 2 ^ 8), bit_and_mask 8 v)

-- What is assigned is read back.
pub value-assign : (v : ℕ) → v < 65536 → value (assign v) ≡ v
value-assign v h = ground (arith, value_lem (assign-IsBytes v), assign_lem v h)

-- Assigning a register's own value changes neither half.
pub assign-value : {r : Register16} → IsBytes r → assign (value r) ≡ r
assign-value {r} b = ground (arith, value_lem b, assign_lem (value r) (value-lt b))

pub value-add_assign :
    {r : Register16} (v : ℕ)
    → IsBytes r
    → v < 65536
    → value (add_assign r v) ≡ (value r + v) % 65536
unfolding add_assign
value-add_assign {r} v b h =
    ground (arith, value-lt b, value-assign ((value r + v) % 65536) (omega arith))

pub value-sub_assign :
    {r : Register16} (v : ℕ)
    → IsBytes r
    → v < 65536
    → value (sub_assign r v) ≡ (value r + 65536 - v) % 65536
unfolding sub_assign
value-sub_assign {r} v b h =
    ground (arith, value-lt b, value-assign ((value r + 65536 - v) % 65536) (omega arith))

-- Adding an `address8` moves by -128 to 127, modulo 2 ^ 16.
pub value-add_assign_address8 :
    {r : Register16} (a : ℕ)
    → IsBytes r
    → a < 256
    → value (add_assign_address8 r a)
      ≡ (if ltb a 128 then (value r + a) % 65536 else (value r + 65536 + a - 256) % 65536)
unfolding add_assign_address8
value-add_assign_address8 {r} a b h = ground (
  arith,
  value-assign ((value r + a) % 65536) (omega arith),
  value-assign ((value r + (a + 2 ^ 32 - 256)) % 65536) (omega arith),
)

pub of_value_lem : (v : ℕ) → v < 65536 → of_value v ≡ assign v
unfolding of_value
of_value_lem v h = ground (arith, bit_and_mask 8 v, assign_lem v h)

pub increment_lem : {r : Register16} → IsBytes r → value (increment r) ≡ (value r + 1) % 65536
unfolding increment
increment_lem b = value-add_assign 1 b (omega arith)

pub decrement_lem : {r : Register16} → IsBytes r → value (decrement r) ≡ (value r + 65535) % 65536
unfolding decrement
decrement_lem b = omega (arith, value-sub_assign 1 b (omega arith))

pub increment-IsBytes : (r : Register16) → IsBytes (increment r)
unfolding increment add_assign
increment-IsBytes r = assign-IsBytes _

pub decrement-IsBytes : (r : Register16) → IsBytes (decrement r)
unfolding decrement sub_assign
decrement-IsBytes r = assign-IsBytes _

-- Two registers of bytes with one value are one register.
pub value_injective : {r s : Register16} → IsBytes r → IsBytes s → value r ≡ value s → r ≡ s
value_injective b c e = sym (assign-value b) ∙ ap assign e ∙ assign-value c

-- Counting down undoes counting up, across the wrap, and the other way round.
pub decrement-increment : {r : Register16} → IsBytes r → decrement (increment r) ≡ r
decrement-increment {r} b =
    value_injective (decrement-IsBytes (increment r)) b
      (omega (arith, decrement_lem (increment-IsBytes r), increment_lem b, value-lt b))

pub increment-decrement : {r : Register16} → IsBytes r → increment (decrement r) ≡ r
increment-decrement {r} b =
    value_injective (increment-IsBytes (decrement r)) b
      (omega (arith, increment_lem (decrement-IsBytes r), decrement_lem b, value-lt b))
