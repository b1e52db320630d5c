-- ===== src/Ppu/Render/Tile.antt =====
-- gameboy/src/ppu/ppu.cpp: `get_tile_row`, with gameboy/include/gameboy/ppu/data/attributes.h and the
-- buffer of a line.
use gameboi.Base.{
  ℕ, ◌+◌, ◌*◌, Bool, not, List, [], ◌∷◌, if◌then◌else◌, bit_and, bit_or, shl, shr, u8, u16,
  sign_extend8,
}
use gameboi.Util.Bit
use gameboi.Ppu.Stat.{unsigned_mode}
use gameboi.Ppu.State.{Ppu}
use gameboi.Ppu.Memory.{read_ram_by_bank}

-- `attributes::obj`
pub record Obj : Type 0 where
  pub y : ℕ
  pub x : ℕ
  pub tile_number : ℕ
  pub attributes : ℕ

-- `tile_attribute`; an `attributes::bg` is its byte.
pub data Attribute : Type 0 where
  uninitialized : Attribute
  bg : ℕ → Attribute
  obj : Obj → Attribute

-- `render_buffer`: a colour's index and where it is from, for every pixel of the line.
abbrev pub Buffer : Type 0
Buffer = List (ℕ × Attribute)

-- Of the attributes of either kind.
abbrev pub v_flipped : ℕ → Bool
v_flipped attributes = Bit.test attributes 6

abbrev pub h_flipped : ℕ → Bool
h_flipped attributes = Bit.test attributes 5

abbrev pub vram_bank : ℕ → ℕ
vram_bank attributes = Bit.extract attributes 3

abbrev pub palette_index : ℕ → ℕ
palette_index attributes = bit_and attributes 0x7

abbrev pub gb_palette_index : ℕ → ℕ
gb_palette_index attributes = Bit.extract attributes 4

abbrev pub bg_prioritized : ℕ → Bool
bg_prioritized attributes = Bit.test attributes 7

abbrev pub obj_prioritized : ℕ → Bool
obj_prioritized attributes = not (Bit.test attributes 7)

-- `tile_address<uint8_t>` and `tile_address<int8_t>`
abbrev pub tile_address : ℕ → ℕ → ℕ
tile_address base tile_no = u16 (base + tile_no * 8 * 2)

abbrev pub signed_tile_address : ℕ → ℕ → ℕ
signed_tile_address base tile_no = u16 (base + sign_extend8 tile_no * 8 * 2)

-- One call of `pixel_generator`.
abbrev pub pixel : ℕ → ℕ → ℕ → ℕ
pixel lsb msb bit =
    u8 (bit_or (shl (shr (bit_and msb (shl 1 bit)) bit) 1) (shr (bit_and lsb (shl 1 bit)) bit))

unfoldable pub tile_row_at : ℕ → ℕ → ℕ → Ppu → List ℕ
tile_row_at row tile_base_addr bank p =
    let lsb = read_ram_by_bank (u16 (tile_base_addr + row * 2)) bank p in
    let msb = read_ram_by_bank (u16 (tile_base_addr + row * 2 + 1)) bank p in
    pixel lsb msb 7
    ∷ pixel lsb msb 6
    ∷ pixel lsb msb 5
    ∷ pixel lsb msb 4
    ∷ pixel lsb msb 3
    ∷ pixel lsb msb 2
    ∷ pixel lsb msb 1
    ∷ pixel lsb msb 0
    ∷ []

unfoldable pub get_tile_row : ℕ → ℕ → ℕ → Ppu → List ℕ
get_tile_row row tile_no bank p =
    tile_row_at row
      (if unsigned_mode p.lcdc
        then tile_address 0x8000 tile_no
        else signed_tile_address 0x9000 tile_no)
      bank p

-- `std::reverse`, onto what is already reversed.
unfoldable pub reversed_onto : List ℕ → List ℕ → List ℕ
reversed_onto acc [] = acc
reversed_onto acc (x ∷ xs) = reversed_onto (x ∷ acc) xs

unfoldable pub flipped_if : Bool → List ℕ → List ℕ
unfolding reversed_onto
flipped_if flip row = if flip then reversed_onto [] row else row
