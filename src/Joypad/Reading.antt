-- ===== src/Joypad/Reading.antt =====
-- What the program reads from the joypad register after it has selected a group of keys.
use gameboi.Base.{
  ℕ, ◌+◌, ◌*◌, ◌/◌, ◌%◌, ◌^◌, ◌<◌, ◌≡◌, not, ◌==◌, arith, refl, bit_and, bit_or, all_below,
  all_below_sound, if◌then◌else◌, mask_0f, bit_or_fields, bit_and_bit, Bool, true, ◌&&◌, ◌||◌, ltb,
}
use gameboi.Util.Mask
use gameboi.Util.Bit
use gameboi.Util.Bit.Laws
use gameboi.Joypad.{Joypad, Key, read, write}
use gameboi.Joypad.Laws.{Shows, index}

-- Only bits 4 and 5 of the written byte count.
select_table :
    all_below 256 (λ v.
      bit_or v 0xCF == 0xCF + v / 16 % 2 * 16 + v / 32 % 2 * 32
      && bit_and (bit_or v 0xCF) 0x30 == v / 16 % 2 * 16 + v / 32 % 2 * 32
      && bit_and (bit_or v 0xCF) 0xF0 == (12 + v / 16 % 2 + v / 32 % 2 * 2) * 2 ^ 4)
    ≡ true
unfolding all_below
select_table = refl

select_bit :
    (x y : ℕ)
    → x < 2
    → y < 2
    → (Mask.test (x * 16 + y * 32) 0x10 ≡ (x == 1)) × (Mask.test (x * 16 + y * 32) 0x20 ≡ (y == 1))
unfolding Mask.test
select_bit x y hx hy =
    ground (arith, bit_and_bit 4 (x * 16 + y * 32), bit_and_bit 5 (x * 16 + y * 32))

-- With bit 4 of the written byte clear the low nibble shows the direction keys, else with bit 5
-- clear the buttons, else ones; the upper nibble shows the selection over two ones.
pub read-write :
    (val : ℕ) (j : Joypad)
    → val < 256
    → j.keys < 256
    → read (write val j)
      ≡ 0xC0
        + val / 16 % 2 * 16
        + val / 32 % 2 * 32
        + (if val / 16 % 2 == 0 then j.keys % 16 else if val / 32 % 2 == 0 then j.keys / 16 else 15)
unfolding read write
read-write val j hv hk =
    let high = 12 + val / 16 % 2 + val / 32 % 2 * 2 in
    ground (
      arith,
      all_below_sound 256 _ val select_table hv,
      select_bit (val / 16 % 2) (val / 32 % 2),
      mask_0f j.keys,
      bit_or_fields 4 high (j.keys % 16),
      bit_or_fields 4 high (j.keys / 16),
    )

-- With the directions selected, the bit of a direction key reads 0 exactly while it is held; with
-- the buttons selected, so does the bit of a button, four places lower.
pub read_held :
    (k : Key) (val : ℕ) (j : Joypad) (h : Key → Bool)
    → Shows j h
    → val < 256
    → (val / 16 % 2 == 0) ≡ ltb (index k) 4
    → ltb (index k) 4 || (val / 32 % 2 == 0) ≡ true
    → Bit.test (read (write val j)) (index k % 4) ≡ not (h k)
read_held Key.right val j h s hv group on = ground (
  arith,
  read-write val j hv s.fits,
  s.bits Key.right,
  Laws.test_lem (read (write val j)) 0,
  Laws.test_lem j.keys 0,
)
read_held k val j h s hv group on = ground (
  arith,
  read-write val j hv s.fits,
  s.bits k,
  Laws.test_lem (read (write val j)) (index k % 4),
  Laws.test_lem j.keys (index k),
)
