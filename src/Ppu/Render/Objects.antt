-- ===== src/Ppu/Render/Objects.antt =====
-- gameboy/src/ppu/ppu.cpp: `render_obj`.
pub mod Order
use gameboi.Base.{
  ℕ, zero, suc, ◌+◌, ◌-◌, ◌*◌, Bool, true, not, ◌&&◌, ◌||◌, ◌==◌, ltb, leb, List, [], ◌∷◌, get_or,
  set, if◌then◌else◌, bit_and,
}
use gameboi.Ppu.Stat.{obj_enabled, large_obj, bg_enabled}
use gameboi.Ppu.State.{Ppu, screen_width}
use gameboi.Ppu.Render.Tile.{
  Obj, Attribute, Buffer, v_flipped, h_flipped, vram_bank, bg_prioritized, obj_prioritized,
  tile_address, tile_row_at, flipped_if, reversed_onto,
}

abbrev pub obj_size : Ppu → ℕ
obj_size p = if large_obj p.lcdc then 16 else 8

-- The entry of the table of objects: four bytes each.
unfoldable pub obj_at : Ppu → ℕ → Obj
obj_at p idx = record {
  y = get_or p.oam (idx * 4) 0;
  x = get_or p.oam (idx * 4 + 1) 0;
  tile_number = get_or p.oam (idx * 4 + 2) 0;
  attributes = get_or p.oam (idx * 4 + 3) 0;
}

-- `ly >= obj_y && ly < obj_y + obj_size` for the signed `obj_y`, which is `obj.y - 16`.
abbrev pub is_on_line : Ppu → Obj → Bool
is_on_line p o = leb o.y (p.ly + 16) && ltb (p.ly + 16) (o.y + obj_size p)

-- The loop over the indices from `idx` on, which leaves when ten are `found`.
unfoldable pub objects_from : Ppu → ℕ → ℕ → ℕ → List ℕ
objects_from p idx zero found = []
objects_from p idx (suc left) found =
    let hit = is_on_line p (obj_at p idx) in
    let rest = objects_from p (idx + 1) left (if hit then found + 1 else found) in
    if found == 10 then [] else if hit then idx ∷ rest else rest

-- The order of the sort: by `x`, and by the index where these are equal.
unfoldable pub comes_before : Ppu → ℕ → ℕ → Bool
comes_before p l r =
    let obj_l = obj_at p l in
    let obj_r = obj_at p r in if obj_l.x == obj_r.x then ltb l r else ltb obj_l.x obj_r.x

-- `std::sort`: the order is total on different indices, so that the result is one list only.
unfoldable pub insert_index : Ppu → ℕ → List ℕ → List ℕ
insert_index p idx [] = idx ∷ []
insert_index p idx (i ∷ is) =
    if comes_before p idx i then idx ∷ i ∷ is else i ∷ insert_index p idx is

unfoldable pub sort_indices : Ppu → List ℕ → List ℕ
sort_indices p [] = []
sort_indices p (i ∷ is) = insert_index p i (sort_indices p is)

-- The objects of the line in the order in which they are drawn: the last one is on top.
unfoldable pub indices : Ppu → List ℕ
indices p =
    let found = objects_from p 0 40 0 in
    reversed_onto [] (if not p.cgb_enabled then sort_indices p found else found)

-- Whether a dot of an object covers what the buffer holds.
unfoldable pub covers : Ppu → Obj → ℕ × Attribute → Bool
covers p o (existing, Attribute.uninitialized) = true
covers p o (existing, Attribute.obj other) = true
covers p o (existing, Attribute.bg attributes) =
    existing == 0
    || (p.cgb_enabled && not (bg_enabled p.lcdc))
    || (obj_prioritized o.attributes && not (bg_prioritized attributes))

-- The loop over the row of an object; `position` is 8 more than `x`.
unfoldable pub draw_row : Ppu → Obj → ℕ → List ℕ → Buffer → Buffer
draw_row p o position [] buffer = buffer
draw_row p o position (dot ∷ row) buffer = draw_row p o (position + 1) row (
    if ltb position 8 || leb (screen_width + 8) position
    then buffer
    else if dot == 0
    then buffer
    else if covers p o (get_or buffer (position - 8) (0, Attribute.uninitialized))
    then set buffer (position - 8) (dot, Attribute.obj o)
    else buffer)

unfoldable pub draw_object : Ppu → Obj → Buffer → Buffer
draw_object p o buffer =
    let line = p.ly + 16 - o.y in
    let row = if v_flipped o.attributes then obj_size p - line - 1 else line in
    let tile = if large_obj p.lcdc then bit_and o.tile_number 0xFE else o.tile_number in
    let dots = tile_row_at row (tile_address 0x8000 tile) (vram_bank o.attributes) p in
    if ltb o.x 1 || leb (screen_width + 8) o.x
    then buffer
    else draw_row p o o.x (flipped_if (h_flipped o.attributes) dots) buffer

unfoldable pub draw_objects : Ppu → List ℕ → Buffer → Buffer
draw_objects p [] buffer = buffer
draw_objects p (i ∷ is) buffer = draw_objects p is (draw_object p (obj_at p i) buffer)

unfoldable pub render_obj : Ppu → Buffer → Buffer
render_obj p buffer = if not (obj_enabled p.lcdc) then buffer else draw_objects p (indices p) buffer
