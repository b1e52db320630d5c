-- ===== src/Ppu/Palettes.antt =====
-- gameboy/src/ppu/ppu.cpp: the registers of the palettes. A colour of the colour machine is written
-- in two bytes, xBBBBBGG GGGRRRRR, through an index register and a data register.
pub mod Roundtrip
use gameboi.Base.{
  ℕ, ◌+◌, Bool, ◌==◌, List, [], get_or, set, if◌then◌else◌, bit_and, bit_or, shl, shr, u8,
}
use gameboi.Util.Bit
use gameboi.Ppu.Color.{Color, Palette, gray}
use gameboi.Ppu.State.{Ppu}

abbrev pub bgp_addr : ℕ
bgp_addr = 0xFF47

abbrev pub obp_0_addr : ℕ
obp_0_addr = 0xFF48

abbrev pub obp_1_addr : ℕ
obp_1_addr = 0xFF49

abbrev pub bgpi_addr : ℕ
bgpi_addr = 0xFF68

abbrev pub bgpd_addr : ℕ
bgpd_addr = 0xFF69

abbrev pub obpi_addr : ℕ
obpi_addr = 0xFF6A

abbrev pub obpd_addr : ℕ
obpd_addr = 0xFF6B

abbrev pub is_msb : ℕ → Bool
is_msb index = Bit.test index 0

abbrev pub color_index : ℕ → ℕ
color_index index = bit_and (shr index 1) 0x03

abbrev pub palette_index : ℕ → ℕ
palette_index index = bit_and (shr index 3) 0x07

abbrev pub palette_at : ℕ → List Palette → Palette
palette_at index palettes = get_or palettes (palette_index index) []

-- `palettes[palette_index].colors[color_index]`, and a write through the reference to it.
unfoldable pub color_at : ℕ → List Palette → Color
color_at index palettes = get_or (palette_at index palettes) (color_index index) (gray 0)

unfoldable pub set_color_at : ℕ → Color → List Palette → List Palette
set_color_at index c palettes =
    set palettes (palette_index index) (set (palette_at index palettes) (color_index index) c)

-- The byte of a colour that the index names: what `update_palette_data_register` stores.
unfoldable pub data_of : Bool → Color → ℕ
data_of msb c =
    if msb
    then u8 (bit_or (shl c.blue 2) (bit_and (shr c.green 3) 0x03))
    else u8 (bit_or (shl (bit_and c.green 0x07) 5) c.red)

-- The colour after a byte is written to it.
unfoldable pub written : Bool → ℕ → Color → Color
written msb val c =
    if msb
    then record c {
      blue = bit_and (shr val 2) 0x1F;
      green = bit_or c.green (shl (bit_and val 0x03) 3);
    }
    else record c { red = bit_and val 0x1F; green = bit_and (shr val 5) 0x07 }

-- An index register, its data register and the palettes behind them.
pub record Port : Type 0 where
  pub index : ℕ
  pub register : ℕ
  pub palettes : List Palette

unfoldable pub update_palette_data_register : Port → Port
update_palette_data_register r = record r {
  register = data_of (is_msb r.index) (color_at r.index r.palettes);
}

abbrev pub next_index : ℕ → ℕ
next_index index = bit_or (bit_and index 0x80) (bit_and (index + 1) 0x3F)

unfoldable pub set_palette : ℕ → Port → Port
set_palette val r =
    let stored = record r {
      palettes =
          set_color_at r.index (written (is_msb r.index) val (color_at r.index r.palettes))
            r.palettes;
    } in
    if Bit.test r.index 7
    then update_palette_data_register (record stored { index = next_index r.index })
    else stored

abbrev pub bg_port : Ppu → Port
bg_port p = record { index = p.bgpi; register = p.bgpd; palettes = p.cgb_bg_palettes }

abbrev pub with_bg_port : Port → Ppu → Ppu
with_bg_port r p = record p { bgpi = r.index; bgpd = r.register; cgb_bg_palettes = r.palettes }

abbrev pub obj_port : Ppu → Port
obj_port p = record { index = p.obpi; register = p.obpd; palettes = p.cgb_obj_palettes }

abbrev pub with_obj_port : Port → Ppu → Ppu
with_obj_port r p = record p { obpi = r.index; obpd = r.register; cgb_obj_palettes = r.palettes }

unfoldable pub palette_read : ℕ → Ppu → ℕ
palette_read address p =
    if address == bgp_addr
    then p.bgp
    else if address == obp_0_addr
    then p.obp_0
    else if address == obp_1_addr
    then p.obp_1
    else if address == bgpi_addr
    then p.bgpi
    else if address == bgpd_addr
    then p.bgpd
    else if address == obpi_addr
    then p.obpi
    else if address == obpd_addr
    then p.obpd
    else 0

unfoldable pub palette_write : ℕ → ℕ → Ppu → Ppu
palette_write address val p =
    if address == bgp_addr
    then record p { bgp = val }
    else if address == obp_0_addr
    then record p { obp_0 = val }
    else if address == obp_1_addr
    then record p { obp_1 = val }
    else if address == bgpi_addr
    then with_bg_port (update_palette_data_register (record (bg_port p) { index = val })) p
    else if address == obpi_addr
    then with_obj_port (update_palette_data_register (record (obj_port p) { index = val })) p
    else if address == bgpd_addr
    then with_bg_port (set_palette val (bg_port p)) p
    else if address == obpd_addr
    then with_obj_port (set_palette val (obj_port p)) p
    else p
