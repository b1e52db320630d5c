-- ===== src/Ppu/Render/Background/Scroll.antt =====
-- The background of a line against the map that it scrolls over.
use gameboi.Base.{
  ℕ, zero, suc, ◌+◌, ◌-◌, ◌*◌, ◌/◌, ◌%◌, ◌≤◌, ◌<◌, ◌≡◌, Bool, true, false, ◌&&◌, ◌||◌, ltb, leb,
  List, [], ◌∷◌, get_or, set, length, length-set, get_or-set_self, get_or-set_ne, if◌then◌else◌,
  arith, refl, ap, ◌∙◌, sym,
}
use mathlib.Core.Path.{subst}
use native.Mathlib.Decide.{dec_lt, ℕ_discrete}
use gameboi.Ppu.Stat.{bg_enabled}
use gameboi.Ppu.State.{Ppu}
use gameboi.Ppu.Render.Tile.{Buffer, Attribute, get_tile_row, tile_row_at, flipped_if}
use gameboi.Ppu.Render.Background.{
  attributes_at, shown_row, is_scrolled_in, render_tile, tile_map_idx, render_tiles,
  render_background,
}

length-flipped_if :
    (flip : Bool) (a b c d e f g h : ℕ)
    → length (flipped_if flip (a ∷ b ∷ c ∷ d ∷ e ∷ f ∷ g ∷ h ∷ [])) ≡ 8
unfolding flipped_if
length-flipped_if true a b c d e f g h = refl
length-flipped_if false a b c d e f g h = refl

length-shown_row : (entry y : ℕ) (p : Ppu) → length (shown_row entry y p) ≡ 8
unfolding shown_row get_tile_row tile_row_at
length-shown_row entry y p = length-flipped_if _ _ _ _ _ _ _ _ _

abbrev nothing : ℕ × Attribute
nothing = (0, Attribute.uninitialized)

-- The dot of the map at a column of the line that is drawn: the tile of the column in the map, and
-- the dot of the column in the tile.
abbrev pub dot_at : Ppu → ℕ → ℕ → ℕ × Attribute
dot_at p tile_map_x tile_x =
    let entry = tile_map_idx p tile_map_x in
    (get_or (shown_row entry ((p.scy + p.ly) % 8) p) tile_x 0, Attribute.bg (attributes_at entry p))

abbrev pub map_dot : Ppu → ℕ → ℕ × Attribute
map_dot p column = dot_at p (column / 8) (column % 8)

j_zero : (j : ℕ) → j + 0 ≡ j
j_zero j = omega arith

zero_j : (j : ℕ) → j ≡ 0 + j
zero_j j = omega arith

shifted : (j i : ℕ) → j + suc i ≡ j + 1 + i
shifted j i = omega arith

module _ (p : Ppu) (fits : p.scx < 256) where
  -- The pixels drawn after `q` dots from the start of the first tile.
  abbrev count : ℕ → ℕ
  count q = if ltb q (p.scx % 8) then 0 else if ltb (q - p.scx % 8) 160 then q - p.scx % 8 else 160

  record Drawn (q : ℕ) (s : ℕ × Buffer) : Type 0 where
    rendered : s.0 ≡ count q
    size : length s.1 ≡ 160
    pixels : (x : ℕ) → x < s.0 → get_or s.1 x nothing ≡ map_dot p ((p.scx + x) % 256)

  scrolled_in :
      (q : ℕ) → count q < 160 → is_scrolled_in ((p.scx - p.scx % 8 + q) % 256) p ≡ leb (p.scx % 8) q
  scrolled_in q h = ground arith

  abbrev with_dot : Bool → ℕ × Attribute → ℕ × Buffer → ℕ × Buffer
  with_dot shown dot s = if shown then (s.0 + 1, set s.1 s.0 dot) else s

  with_dot-Drawn :
      (q : ℕ) (dot : ℕ × Attribute) (rendered : ℕ) (buffer : Buffer)
      → rendered < 160
      → p.scx % 8 ≤ q
      → dot ≡ map_dot p ((p.scx - p.scx % 8 + q) % 256)
      → Drawn q (rendered, buffer)
      → Drawn (q + 1) (rendered + 1, set buffer rendered dot)
  with_dot-Drawn q dot rendered buffer room reached same drawn = record {
    rendered = let e = drawn.rendered in ground arith;
    size = length-set buffer rendered dot ∙ drawn.size;
    pixels = λ x h. elim (ℕ_discrete x rendered) [
      | yes last ↦
          let column : (p.scx - p.scx % 8 + q) % 256 ≡ (p.scx + x) % 256 =
            let e = drawn.rendered in ground arith in
          subst (λ i. get_or (set buffer rendered dot) i nothing ≡ map_dot p ((p.scx + x) % 256))
            (sym last)
            (get_or-set_self buffer rendered dot nothing (let e = drawn.size in omega arith)
              ∙ same
              ∙ ap (map_dot p) column)
      | no before ↦
          get_or-set_ne buffer rendered x dot nothing (λ e. before (sym e))
          ∙ drawn.pixels x (omega arith)
    ];
  }

  draw_dot :
      (q pix_idx : ℕ) (dot : ℕ × Attribute) (s : ℕ × Buffer)
      → pix_idx ≡ (p.scx - p.scx % 8 + q) % 256
      → dot ≡ map_dot p pix_idx
      → Drawn q s
      → Drawn (q + 1) (with_dot (ltb s.0 160 && is_scrolled_in pix_idx p) dot s)
  draw_dot q pix_idx dot s at same drawn =
      let shown = ap (λ i. is_scrolled_in i p) at in
      elim (dec_lt (s.0) 160) [
        | yes room ↦
            let inside = shown ∙ scrolled_in q (let e = drawn.rendered in ground arith) in
            elim (dec_lt q (p.scx % 8)) [
              | yes early ↦
                  let off : (ltb s.0 160 && is_scrolled_in pix_idx p) ≡ false =
                    ground (arith, inside) in
                  subst (λ t. Drawn (q + 1) (with_dot t dot s)) (sym off)
                    (record {
                      rendered = let e = drawn.rendered in ground arith;
                      size = drawn.size;
                      pixels = drawn.pixels;
                    })
              | no reached ↦
                  let on : (ltb s.0 160 && is_scrolled_in pix_idx p) ≡ true =
                    ground (arith, inside) in
                  subst (λ t. Drawn (q + 1) (with_dot t dot s)) (sym on)
                    (with_dot-Drawn q dot (s.0) (s.1) room (omega arith) (same ∙ ap (map_dot p) at)
                      drawn)
            ]
        | no full ↦
            let off : (ltb s.0 160 && is_scrolled_in pix_idx p) ≡ false = ground arith in
            subst (λ t. Drawn (q + 1) (with_dot t dot s)) (sym off)
              (record {
                rendered = let e = drawn.rendered in ground arith;
                size = drawn.size;
                pixels = drawn.pixels;
              })
      ]

  -- The tile of number `done` from the left, from its dot `j` on.
  tile-Drawn :
      (done j : ℕ) (row : List ℕ) (s : ℕ × Buffer)
      → j + length row ≡ 8
      → let tile_map_x = (p.scx / 8 + done) % 32 in
        let entry = tile_map_idx p tile_map_x in
        ((i : ℕ)
          → i < length row
          → get_or row i 0 ≡ get_or (shown_row entry ((p.scy + p.ly) % 8) p) (j + i) 0)
        → Drawn (done * 8 + j) s
        → Drawn
            (done * 8 + 8)
            (render_tile p (Attribute.bg (attributes_at entry p)) (tile_map_x * 8 + j) row s)
  unfolding render_tile
  tile-Drawn done j [] s size same drawn =
      let e : done * 8 + j ≡ done * 8 + 8 = omega arith in subst (λ q. Drawn q s) e drawn
  tile-Drawn done j (color ∷ row) s size same drawn =
      let tile_map_x = (p.scx / 8 + done) % 32 in
      let entry = tile_map_idx p tile_map_x in
      let attr = Attribute.bg (attributes_at entry p) in
      let pix_idx = tile_map_x * 8 + j in
      let tile : tile_map_x ≡ pix_idx / 8 = omega arith in
      let within : j ≡ pix_idx % 8 = omega arith in
      let first : color ≡ get_or (shown_row entry ((p.scy + p.ly) % 8) p) j 0 =
        same 0 (omega arith)
        ∙ ap (λ i. get_or (shown_row entry ((p.scy + p.ly) % 8) p) i 0) (j_zero j) in
      let dot_same : ◌≡◌ {A = ℕ × Attribute} (color, attr) (map_dot p pix_idx) =
        ap (λ (c : ℕ). (c, attr)) first
        ∙ ap (λ t. dot_at p t j) tile
        ∙ ap (λ t. dot_at p (pix_idx / 8) t) within in
      let next = draw_dot (done * 8 + j) pix_idx (color, attr) s (omega arith) dot_same drawn in
      let s' = with_dot (ltb s.0 160 && is_scrolled_in pix_idx p) (color, attr) s in
      let position : done * 8 + j + 1 ≡ done * 8 + (j + 1) = omega arith in
      let step : tile_map_x * 8 + (j + 1) ≡ pix_idx + 1 = omega arith in
      subst (λ i. Drawn (done * 8 + 8) (render_tile p attr i row s')) step
        (tile-Drawn done (j + 1) row s' (omega arith)
          (λ i h.
            same (suc i) (omega arith)
            ∙ ap (λ k. get_or (shown_row entry ((p.scy + p.ly) % 8) p) k 0) (shifted j i))
          (subst (λ q. Drawn q s') position next))

  tiles-Drawn :
      (done left : ℕ) (s : ℕ × Buffer)
      → Drawn (done * 8) s
      → Drawn ((done + left) * 8) (render_tiles p done left s)
  unfolding render_tiles
  tiles-Drawn done zero s drawn =
      let e : done * 8 ≡ (done + 0) * 8 = omega arith in subst (λ q. Drawn q s) e drawn
  tiles-Drawn done (suc left) s drawn =
      let tile_map_x = (p.scx / 8 + done) % 32 in
      let entry = tile_map_idx p tile_map_x in
      let attr = Attribute.bg (attributes_at entry p) in
      let row = shown_row entry ((p.scy + p.ly) % 8) p in
      let start : done * 8 ≡ done * 8 + 0 = omega arith in
      let column : tile_map_x * 8 + 0 ≡ tile_map_x * 8 = omega arith in
      let end : done * 8 + 8 ≡ (done + 1) * 8 = omega arith in
      let all : (done + 1 + left) * 8 ≡ (done + suc left) * 8 = omega arith in
      let tile =
        tile-Drawn done 0 row s
          (let whole = length-shown_row entry ((p.scy + p.ly) % 8) p in omega arith)
          (λ i h. ap (λ k. get_or row k 0) (zero_j i)) (subst (λ q. Drawn q s) start drawn) in
      subst (λ q. Drawn q (render_tiles p done (suc left) s)) all
        (tiles-Drawn (done + 1) left (render_tile p attr (tile_map_x * 8) row s) (
          subst (λ q. Drawn q (render_tile p attr (tile_map_x * 8) row s)) end
            (subst (λ i. Drawn (done * 8 + 8) (render_tile p attr i row s)) column tile)))

  -- With the background on, the pixel `x` of the line is the dot of the map at the column that `x`
  -- is scrolled to, and so it is across the map's right end: whatever the scroll, no pixel of the
  -- line is left out.
  pub render_background-scrolls :
      (buffer : Buffer) (x : ℕ)
      → (p.cgb_enabled || bg_enabled p.lcdc) ≡ true
      → length buffer ≡ 160
      → x < 160
      → get_or (render_background p buffer) x nothing ≡ map_dot p ((p.scx + x) % 256)
  unfolding render_background
  render_background-scrolls buffer x on size h =
      let drawn =
        tiles-Drawn 0 21 (0, buffer)
          (record {
            rendered = ground arith;
            size = size;
            pixels = λ i lt. absurd (omega arith);
          }) in
      ground (arith, drawn.pixels x (let e = drawn.rendered in ground arith))
