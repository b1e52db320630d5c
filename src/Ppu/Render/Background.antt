-- ===== src/Ppu/Render/Background.antt =====
-- gameboy/src/ppu/ppu.cpp: `render_background` and `render_window`.
pub mod Scroll
use gameboi.Base.{
  ℕ, zero, suc, ◌+◌, ◌-◌, ◌*◌, ◌/◌, ◌%◌, Bool, true, false, not, ◌&&◌, ◌||◌, ltb, leb, List, [],
  ◌∷◌, set, if◌then◌else◌, u8, u16,
}
use gameboi.Ppu.Stat.{bg_enabled, bg_map_secondary, window_enabled, window_map_secondary}
use gameboi.Ppu.State.{Ppu, screen_width, screen_height}
use gameboi.Ppu.Memory.{read_ram_by_bank}
use gameboi.Ppu.Render.Tile.{
  Buffer, Attribute, v_flipped, h_flipped, vram_bank, get_tile_row, flipped_if,
}

-- The attributes of an entry of a tile map, and the row of its tile as it is shown.
abbrev pub attributes_at : ℕ → Ppu → ℕ
attributes_at tile_map_idx p = read_ram_by_bank tile_map_idx 1 p

unfoldable pub shown_row : ℕ → ℕ → Ppu → List ℕ
shown_row tile_map_idx tile_y_to_render p =
    let tile_no = read_ram_by_bank tile_map_idx 0 p in
    let tile_attr = attributes_at tile_map_idx p in
    let tile_y = if v_flipped tile_attr then 8 - tile_y_to_render - 1 else tile_y_to_render in
    flipped_if (h_flipped tile_attr) (get_tile_row tile_y tile_no (vram_bank tile_attr) p)

abbrev pub scroll_offset : Ppu → ℕ
scroll_offset p = (p.scx + screen_width) % 256

-- Whether the pixel `pix_idx` of the map's line is on the screen.
abbrev pub is_scrolled_in : ℕ → Ppu → Bool
is_scrolled_in pix_idx p =
    leb p.scx pix_idx || (ltb (scroll_offset p) p.scx && ltb pix_idx (scroll_offset p))

-- The loop over a tile's pixels; the state is `rendered_pix_idx` and the buffer.
unfoldable pub render_tile : Ppu → Attribute → ℕ → List ℕ → ℕ × Buffer → ℕ × Buffer
render_tile p attr pix_idx [] s = s
render_tile p attr pix_idx (color ∷ row) (rendered, buffer) = render_tile p attr (pix_idx + 1) row (
    if ltb rendered screen_width && is_scrolled_in pix_idx p
    then (rendered + 1, set buffer rendered (color, attr))
    else (rendered, buffer))

abbrev pub map_start : Bool → ℕ
map_start secondary = if secondary then 0x9C00 else 0x9800

abbrev pub tile_map_idx : Ppu → ℕ → ℕ
tile_map_idx p tile_map_x =
    u16 (map_start (bg_map_secondary p.lcdc) + (p.scy + p.ly) / 8 % 32 * 32 + tile_map_x)

-- The loop over `left` tiles from the count `done` on.
unfoldable pub render_tiles : Ppu → ℕ → ℕ → ℕ × Buffer → ℕ × Buffer
render_tiles p done zero s = s
render_tiles p done (suc left) s =
    let tile_map_x = (p.scx / 8 + done) % 32 in
    let entry = tile_map_idx p tile_map_x in
    render_tiles p (done + 1) left (
      render_tile p (Attribute.bg (attributes_at entry p)) (tile_map_x * 8)
        (shown_row entry ((p.scy + p.ly) % 8) p) s)

unfoldable pub render_background : Ppu → Buffer → Buffer
render_background p buffer =
    if not p.cgb_enabled && not (bg_enabled p.lcdc)
    then buffer
    else (render_tiles p 0 (screen_width / 8 + 1) (0, buffer)).1

-- The loop over a tile's pixels in the window. `position` is 7 more than `pix_idx`; the flag tells
-- that the pixel past the screen's right end was met, at which the code returns.
unfoldable pub window_tile : Attribute → ℕ → List ℕ → Bool × Buffer → Bool × Buffer
window_tile attr position [] s = s
window_tile attr position (color ∷ row) (past, buffer) = window_tile attr (position + 1) row (
    if past || leb (screen_width + 7) position
    then (true, buffer)
    else if leb 7 position
    then (false, set buffer (position - 7) (color, attr))
    else (false, buffer))

unfoldable pub window_tiles : Ppu → ℕ → ℕ → Bool × Buffer → Bool × Buffer
window_tiles p tile_map_x zero s = s
window_tiles p tile_map_x (suc left) s =
    let entry =
      u16 (map_start (window_map_secondary p.lcdc) + p.window_line / 8 * 32 + tile_map_x) in
    window_tiles p (tile_map_x + 1) left (
      window_tile (Attribute.bg (attributes_at entry p)) (tile_map_x * 8 + p.wx)
        (shown_row entry (p.window_line % 8) p) s)

abbrev pub is_window_off : Ppu → Bool
is_window_off p =
    (leb screen_height p.window_line || not (window_enabled p.lcdc))
    || (ltb p.ly p.wy || (leb screen_height p.wy || leb (screen_width + 7) p.wx))

unfoldable pub render_window : Ppu → Buffer → Ppu × Buffer
render_window p buffer =
    let (past, buffer') = window_tiles p 0 (screen_width / 8 + 1) (false, buffer) in
    if is_window_off p
    then (p, buffer)
    else if past
    then (record p { window_line = u8 (p.window_line + 1) }, buffer')
    else (p, buffer')
