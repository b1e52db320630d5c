-- ===== src/Joypad/Laws.antt =====
-- The key matrix against the set of keys that are held down.
use gameboi.Base.{
  ℕ, ◌-◌, ◌^◌, ◌<◌, ◌≡◌, Bool, true, false, not, ◌&&◌, ◌||◌, ◌==◌, arith, refl, List, [], ◌∷◌,
  bit_and, bit_or, all_below, all_below_sound, bit_or-lt, bit_and-le_right,
}
use gameboi.Util.Bit
use gameboi.Cpu.State.{Cpu}
use gameboi.Joypad.{Joypad, Key, mask_of, initial, press, release}

-- The bit of a key in the matrix.
abbrev pub index : Key → ℕ
index Key.right = 0
index Key.left = 1
index Key.up = 2
index Key.down = 3
index Key.a = 4
index Key.b = 5
index Key.select = 6
index Key.start = 7

-- What a player does.
pub data Event : Type 0 where
  down up : Key → Event

unfoldable pub play : List Event → Joypad × Cpu → Joypad × Cpu
play [] s = s
play (down k ∷ rest) s = play rest (press k s)
play (up k ∷ rest) (j, cpu) = play rest (release k j, cpu)

-- The specification: the keys held after the events, from those held before.
abbrev pub same_key : Key → Key → Bool
same_key k j = index k == index j

unfoldable pub held : List Event → (Key → Bool) → Key → Bool
held [] h = h
held (down k ∷ rest) h = held rest (λ j. same_key k j || h j)
held (up k ∷ rest) h = held rest (λ j. not (same_key k j) && h j)

-- The matrix shows a held key by a 0.
pub record Shows (j : Joypad) (h : Key → Bool) : Type 0 where
  pub fits : j.keys < 256
  pub bits : (k : Key) → Bit.test j.keys (index k) ≡ not (h k)

abbrev same : Bool → Bool → Bool
same true b = b
same false b = not b

key_table :
    all_below 256 (λ v. all_below 8 (λ k. all_below 8 (λ j.
      same (Bit.test (bit_and v (0xFF - 2 ^ k)) j) (not (k == j) && Bit.test v j)
      && same (Bit.test (bit_or v (2 ^ k)) j) (k == j || Bit.test v j))))
    ≡ true
unfolding all_below Bit.test
key_table = refl

index-lt : (k : Key) → index k < 8
index-lt Key.right = omega arith
index-lt Key.left = omega arith
index-lt Key.up = omega arith
index-lt Key.down = omega arith
index-lt Key.a = omega arith
index-lt Key.b = omega arith
index-lt Key.select = omega arith
index-lt Key.start = omega arith

mask_of-index : (k : Key) → mask_of k ≡ 2 ^ index k
mask_of-index Key.right = refl
mask_of-index Key.left = refl
mask_of-index Key.up = refl
mask_of-index Key.down = refl
mask_of-index Key.a = refl
mask_of-index Key.b = refl
mask_of-index Key.select = refl
mask_of-index Key.start = refl

mask_of-lt : (k : Key) → mask_of k < 256
mask_of-lt Key.right = omega arith
mask_of-lt Key.left = omega arith
mask_of-lt Key.up = omega arith
mask_of-lt Key.down = omega arith
mask_of-lt Key.a = omega arith
mask_of-lt Key.b = omega arith
mask_of-lt Key.select = omega arith
mask_of-lt Key.start = omega arith

key_bits :
    (v : ℕ) (k j : Key)
    → v < 256
    → (Bit.test (bit_and v (0xFF - mask_of k)) (index j)
        ≡ (not (same_key k j) && Bit.test v (index j)))
      × (Bit.test (bit_or v (mask_of k)) (index j) ≡ (same_key k j || Bit.test v (index j)))
key_bits v k j h = rw (mask_of-index k) (
    ground (
      arith,
      all_below_sound 8 _ (index j)
          (all_below_sound 8 _ (index k) (all_below_sound 256 _ v key_table h) (index-lt k))
          (index-lt j),
    ))

pub press-Shows :
    (k : Key) (j : Joypad) (cpu : Cpu) (h : Key → Bool)
    → Shows j h
    → Shows (press k (j, cpu)).0 (λ i. same_key k i || h i)
unfolding press
press-Shows k j cpu h s = record {
  fits = omega (arith, bit_and-le_right j.keys (0xFF - mask_of k));
  bits = λ i. ground (arith, key_bits j.keys k i s.fits, s.bits i);
}

pub release-Shows :
    (k : Key) (j : Joypad) (h : Key → Bool)
    → Shows j h
    → Shows (release k j) (λ i. not (same_key k i) && h i)
unfolding release
release-Shows k j h s = record {
  fits = bit_or-lt 8 j.keys (mask_of k) s.fits (mask_of-lt k);
  bits = λ i. ground (arith, key_bits j.keys k i s.fits, s.bits i);
}

-- After any events the matrix shows exactly the keys that are held: pressed since they were last
-- released, or held from the start.
pub play-Shows :
    (events : List Event) (j : Joypad) (cpu : Cpu) (h : Key → Bool)
    → Shows j h
    → Shows (play events (j, cpu)).0 (held events h)
unfolding play held
play-Shows [] j cpu h s = s
play-Shows (down k ∷ rest) j cpu h s =
    play-Shows rest (press k (j, cpu)).0 (press k (j, cpu)).1 _ (press-Shows k j cpu h s)
play-Shows (up k ∷ rest) j cpu h s = play-Shows rest (release k j) cpu _ (release-Shows k j h s)

pub initial-Shows : Shows initial (λ k. false)
unfolding initial Bit.test
initial-Shows = record {
  fits = omega arith;
  bits = elim [
    | Key.right ↦ refl
    | Key.left ↦ refl
    | Key.up ↦ refl
    | Key.down ↦ refl
    | Key.a ↦ refl
    | Key.b ↦ refl
    | Key.select ↦ refl
    | Key.start ↦ refl
  ];
}
