-- ===== src/Ppu/Render.antt =====
-- gameboy/src/ppu/ppu.cpp: `render`, the colours of a line.
pub mod Tile
pub mod Background
pub mod Objects
use gameboi.Base.{ℕ, ◌*◌, ◌/◌, ◌==◌, List, [], ◌∷◌, get_or, replicate, if◌then◌else◌, u8}
use gameboi.Ppu.Color.{Color, Palette, gray, rgb, from}
use gameboi.Ppu.State.{Ppu, screen_width}
use Tile.{Attribute, Buffer, palette_index, gb_palette_index}
use Background.{render_background, render_window}
use Objects.{render_obj}

abbrev pub do_correct : ℕ → ℕ
do_correct color = u8 (color * 0xFF / 0x1F)

-- Five bits of a colour to eight.
unfoldable pub correct_color : Color → Color
correct_color c = rgb (do_correct c.red) (do_correct c.green) (do_correct c.blue)

abbrev pub color_of : Palette → ℕ → Color
color_of palette index = get_or palette index (gray 0)

unfoldable pub color_at : Ppu → ℕ × Attribute → Color
color_at p (color_idx, Attribute.uninitialized) = gray 0xFF
color_at p (color_idx, Attribute.bg attributes) =
    if p.cgb_enabled
    then correct_color (color_of (get_or p.cgb_bg_palettes (palette_index attributes) []) color_idx)
    else color_of (from p.gb_palette p.bgp) color_idx
color_at p (color_idx, Attribute.obj o) =
    if p.cgb_enabled
    then correct_color
        (color_of (get_or p.cgb_obj_palettes (palette_index o.attributes) []) color_idx)
    else color_of
        (from p.gb_palette (if gb_palette_index o.attributes == 0 then p.obp_0 else p.obp_1))
        color_idx

unfoldable pub colors_of : Ppu → Buffer → List Color
colors_of p [] = []
colors_of p (dot ∷ dots) = color_at p dot ∷ colors_of p dots

abbrev pub blank : Buffer
blank = replicate screen_width (0, Attribute.uninitialized)

-- The line that is handed to `on_render_line_`, and the unit after it.
unfoldable pub render : Ppu → Ppu × List Color
render p =
    let (p', buffer) = render_window p (render_background p blank) in
    (p', colors_of p' (render_obj p' buffer))
