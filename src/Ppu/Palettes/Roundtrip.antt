-- ===== src/Ppu/Palettes/Roundtrip.antt =====
-- A colour written through the two registers of the palettes, and read back.
use gameboi.Base.{
  ℕ, ◌+◌, ◌*◌, ◌/◌, ◌%◌, ◌^◌, ◌<◌, ◌≡◌, true, false, List, [], get_or, set, length, length-set,
  get_or-set_self, bit_or, bit_and_mask, bit_or_fields, bit_or_split, bit_or_zero, zero-bit_or,
  get_or-set_ne, arith, refl, ap, ◌∙◌, sym,
}
use mathlib.Core.Path.{subst}
use native.Mathlib.Decide.{ℕ_discrete}
use gameboi.Util.Bit.Laws.{test_lem}
use gameboi.Ppu.Color.{Color, Palette, gray, rgb}
use gameboi.Ppu.State.{Ppu}
use gameboi.Ppu.Palettes.{
  bgpi_addr, bgpd_addr, is_msb, color_index, palette_index, palette_at, color_at, set_color_at,
  data_of, written, update_palette_data_register, set_palette, palette_read, palette_write,
}

-- Eight palettes of four colours.
pub record IsFull (palettes : List Palette) : Type 0 where
  pub palettes_size : length palettes ≡ 8
  pub colors_size : (i : ℕ) → i < 8 → length (get_or palettes i []) ≡ 4

color_index_lem : (i : ℕ) → color_index i ≡ i / 2 % 4
color_index_lem i = bit_and_mask 2 (i / 2)

palette_index_lem : (i : ℕ) → palette_index i ≡ i / 8 % 8
palette_index_lem i = bit_and_mask 3 (i / 8)

color_at-set_color_at :
    (i : ℕ) (c : Color) (palettes : List Palette)
    → IsFull palettes
    → color_at i (set_color_at i c palettes) ≡ c
unfolding color_at set_color_at
color_at-set_color_at i c palettes full =
    let row = palette_index_lem i in
    let column = color_index_lem i in
    let height = full.palettes_size in
    let width = full.colors_size (palette_index i) (omega arith) in
    ap (λ (colors : Palette). get_or colors (color_index i) (gray 0))
      (get_or-set_self palettes (palette_index i) (set (palette_at i palettes) (color_index i) c) []
        (omega arith))
    ∙ get_or-set_self (palette_at i palettes) (color_index i) c (gray 0) (omega arith)

-- The two indices of one colour.
same_color :
    (k : ℕ) (palettes : List Palette) → color_at (2 * k + 1) palettes ≡ color_at (2 * k) palettes
unfolding color_at
same_color k palettes =
    let row : palette_index (2 * k + 1) ≡ palette_index (2 * k) =
      palette_index_lem (2 * k + 1) ∙ same_row k ∙ sym (palette_index_lem (2 * k)) in
    let column : color_index (2 * k + 1) ≡ color_index (2 * k) =
      color_index_lem (2 * k + 1) ∙ same_column k ∙ sym (color_index_lem (2 * k)) in
    ap (λ r. get_or (get_or palettes r []) (color_index (2 * k + 1)) (gray 0)) row
    ∙ ap (λ c. get_or (get_or palettes (palette_index (2 * k)) []) c (gray 0)) column
  where
    same_row : (k : ℕ) → (2 * k + 1) / 8 % 8 ≡ 2 * k / 8 % 8
    same_row k = omega arith

    same_column : (k : ℕ) → (2 * k + 1) / 2 % 4 ≡ 2 * k / 2 % 4
    same_column k = omega arith

set_color_at-IsFull :
    (i : ℕ) (c : Color) (palettes : List Palette)
    → IsFull palettes
    → IsFull (set_color_at i c palettes)
unfolding set_color_at
set_color_at-IsFull i c palettes full =
    let height = full.palettes_size in
    let row = palette_index_lem i in
    record {
      palettes_size =
          length-set palettes (palette_index i) (set (palette_at i palettes) (color_index i) c)
          ∙ height;
      colors_size = λ j h. elim (ℕ_discrete (palette_index i) j) [
        | yes here ↦
            subst
              (λ j.
                length (
                  get_or
                    (set palettes (palette_index i) (set (palette_at i palettes) (color_index i) c))
                    j [])
                ≡ 4)
              here
              (ap (λ (colors : Palette). length colors)
                  (get_or-set_self palettes (palette_index i)
                    (set (palette_at i palettes) (color_index i) c) [] (omega arith))
                ∙ length-set (palette_at i palettes) (color_index i) c
                ∙ full.colors_size (palette_index i) (omega arith))
        | no other ↦
            ap (λ (colors : Palette). length colors)
              (get_or-set_ne palettes (palette_index i) j
                (set (palette_at i palettes) (color_index i) c) [] other)
            ∙ full.colors_size j h
      ];
    }

low_written : (val : ℕ) (c : Color) → written false val c ≡ rgb (val % 32) (val / 32 % 8) c.blue
unfolding written
low_written val c = ground (arith, bit_and_mask 5 val, bit_and_mask 3 (val / 32))

or_high : (g h : ℕ) → g < 8 → h < 4 → bit_or g (h * 8) ≡ g + h * 8
or_high g h hg hh =
    let low : g ≡ 0 * 2 ^ 3 + g = omega arith in
    let high : h * 8 ≡ h * 2 ^ 3 + 0 = omega arith in
    ap (λ x. bit_or x (h * 8)) low
    ∙ ap (bit_or (0 * 2 ^ 3 + g)) high
    ∙ bit_or_split 3 0 g h 0 hg (omega arith)
    ∙ omega (arith, zero-bit_or h, bit_or_zero g)

high_written :
    (val : ℕ) (c : Color)
    → c.green < 8
    → written true val c ≡ rgb c.red (c.green + val % 4 * 8) (val / 4 % 32)
unfolding written
high_written val c h =
    ground (arith, bit_and_mask 5 (val / 4), bit_and_mask 2 val, or_high c.green (val % 4))

low_data : (r g b : ℕ) → r < 32 → data_of false (rgb r g b) ≡ g % 8 * 32 + r
unfolding data_of
low_data r g b h = ground (arith, bit_and_mask 3 g, bit_or_fields 5 (g % 8) r h)

high_data : (r g b : ℕ) → b < 32 → data_of true (rgb r g b) ≡ b * 4 + g / 8 % 4
unfolding data_of
high_data r g b h = ground (arith, bit_and_mask 2 (g / 8), bit_or_fields 2 b (g / 8 % 4))

even_lsb : (k : ℕ) → is_msb (2 * k) ≡ false
even_lsb k = ground (arith, test_lem (2 * k) 0)

odd_msb : (k : ℕ) → is_msb (2 * k + 1) ≡ true
odd_msb k = ground (arith, test_lem (2 * k + 1) 0)

abbrev stored : ℕ → ℕ → List Palette → List Palette
stored i val palettes = set_color_at i (written (is_msb i) val (color_at i palettes)) palettes

stored_low :
    (k lo : ℕ) (palettes : List Palette)
    → IsFull palettes
    → color_at (2 * k) (stored (2 * k) lo palettes)
      ≡ rgb (lo % 32) (lo / 32 % 8) (color_at (2 * k) palettes).blue
stored_low k lo palettes full =
    color_at-set_color_at (2 * k) _ palettes full
    ∙ ap (λ m. written m lo (color_at (2 * k) palettes)) (even_lsb k)
    ∙ low_written lo (color_at (2 * k) palettes)

stored_both :
    (k lo hi : ℕ) (palettes : List Palette)
    → IsFull palettes
    → color_at (2 * k) (stored (2 * k + 1) hi (stored (2 * k) lo palettes))
      ≡ rgb (lo % 32) (lo / 32 % 8 + hi % 4 * 8) (hi / 4 % 32)
stored_both k lo hi palettes full =
    let first = stored (2 * k) lo palettes in
    let first_full = set_color_at-IsFull (2 * k) _ palettes full in
    let blue = (color_at (2 * k) palettes).blue in
    sym (same_color k (stored (2 * k + 1) hi first))
    ∙ color_at-set_color_at (2 * k + 1) _ first first_full
    ∙ ap (λ m. written m hi (color_at (2 * k + 1) first)) (odd_msb k)
    ∙ ap (written true hi) (same_color k first ∙ stored_low k lo palettes full)
    ∙ high_written hi (rgb (lo % 32) (lo / 32 % 8) blue) (omega arith)

write_at :
    (i val : ℕ) (p : Ppu)
    → i < 64
    → (palette_write bgpd_addr val (palette_write bgpi_addr i p)).cgb_bg_palettes
      ≡ stored i val p.cgb_bg_palettes
unfolding palette_write set_palette update_palette_data_register
write_at i val p h = let no_step = test_lem i 7 in ground (arith, no_step)

read_at :
    (i : ℕ) (p : Ppu)
    → palette_read bgpd_addr (palette_write bgpi_addr i p)
      ≡ data_of (is_msb i) (color_at i p.cgb_bg_palettes)
unfolding palette_read palette_write update_palette_data_register
read_at i p = refl

abbrev pub both_written : ℕ → ℕ → ℕ → Ppu → Ppu
both_written k lo hi p =
    let p' = palette_write bgpd_addr lo (palette_write bgpi_addr (2 * k) p) in
    palette_write bgpd_addr hi (palette_write bgpi_addr (2 * k + 1) p')

both_written-stored :
    (k lo hi : ℕ) (p : Ppu)
    → k < 32
    → (both_written k lo hi p).cgb_bg_palettes
      ≡ stored (2 * k + 1) hi (stored (2 * k) lo p.cgb_bg_palettes)
both_written-stored k lo hi p h =
    let p' = palette_write bgpd_addr lo (palette_write bgpi_addr (2 * k) p) in
    write_at (2 * k + 1) hi p' (omega arith)
    ∙ ap (stored (2 * k + 1) hi) (write_at (2 * k) lo p (omega arith))

-- A background colour of the colour machine that is written low byte first through its two
-- registers, without the automatic step of the index, has the fields of the two bytes, and both
-- bytes read back; bit 7 of the high byte, which no field has, reads as 0.
pub palette_read-palette_write :
    (k lo hi : ℕ) (p : Ppu)
    → k < 32
    → lo < 256
    → hi < 256
    → IsFull p.cgb_bg_palettes
    → let p' = both_written k lo hi p in
      (color_at (2 * k) p'.cgb_bg_palettes ≡ rgb (lo % 32) (lo / 32 % 8 + hi % 4 * 8) (hi / 4 % 32))
      × (palette_read bgpd_addr (palette_write bgpi_addr (2 * k) p') ≡ lo)
      × (palette_read bgpd_addr (palette_write bgpi_addr (2 * k + 1) p') ≡ hi % 128)
palette_read-palette_write k lo hi p h hlo hhi full =
    let p' = both_written k lo hi p in
    let color =
      ap (color_at (2 * k)) (both_written-stored k lo hi p h)
      ∙ stored_both k lo hi p.cgb_bg_palettes full in
    let r = lo % 32 in
    let g = lo / 32 % 8 + hi % 4 * 8 in
    let b = hi / 4 % 32 in
    let low_byte =
      read_at (2 * k) p'
      ∙ ap (λ m. data_of m (color_at (2 * k) p'.cgb_bg_palettes)) (even_lsb k)
      ∙ ap (data_of false) color
      ∙ low_data r g b (omega arith) in
    let high_byte =
      read_at (2 * k + 1) p'
      ∙ ap (λ m. data_of m (color_at (2 * k + 1) p'.cgb_bg_palettes)) (odd_msb k)
      ∙ ap (data_of true) (same_color k p'.cgb_bg_palettes ∙ color)
      ∙ high_data r g b (omega arith) in
    (color, omega arith, omega arith)
